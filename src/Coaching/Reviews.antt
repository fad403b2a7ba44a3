-- ===== src/Coaching/Reviews.antt =====
-- CreateReview of backend/internal/coaching/service.go. A negative rating is refused like 0.
pub mod Upsert
pub mod Recorded
use dating_coach.Base.{
  ℕ, Bool, true, false, not, ◌&&◌, ◌||◌, Option, none, some, String, leb, ltb, ◌==◌,
}
use dating_coach.Base.Outcomes.{
  Outcome, done, failed, Run, bind, ◌>>=◌, ◌>>◌, give, check, demand, query,
}
use dating_coach.Store.Rows.{Time}
use dating_coach.Store.Reviews.{
  CoachReview, Reviews, UpsertCoachReview, has_completed_session, upsert_coach_review,
}
use dating_coach.Coaching.World.{
  Db, Error, not_found, forbidden, invalid_input, internal, find_coach, find_live_user,
}

pub record ReviewState : Type 0 where
  pub db : Db
  pub reviews : Reviews

-- The texts of a request, and what the database draws for a new row.
pub record ReviewEnv : Type 0 where
  pub trim : String → String
  pub rune_count : String → ℕ
  pub new_id : ℕ
  pub db_now : Time

pub record CreateReviewInput : Type 0 where
  pub session_id : Option ℕ
  pub rating : ℕ
  pub comment : String

pub record Review : Type 0 where
  pub row : CoachReview
  pub reviewer_name : String
  pub recommended : Bool

abbrev pub max_review_comment : ℕ
max_review_comment = 2000

abbrev pub recommend_threshold : ℕ
recommend_threshold = 4

unfoldable pub review_of : CoachReview → String → Review
review_of r name = record {
  row = r;
  reviewer_name = name;
  recommended = leb recommend_threshold r.rating;
}

abbrev pub ReviewRun : Type 0 → Type 0
ReviewRun A = Run ReviewState Error A

abbrev pub upsert_params : ReviewEnv → ℕ → ℕ → CreateReviewInput → UpsertCoachReview
upsert_params env coach_id user_id input = record {
  coach_id = coach_id;
  user_id = user_id;
  session_id = input.session_id;
  rating = input.rating;
  comment = env.trim input.comment;
}

abbrev pub stored_review :
    Option CoachReview × Reviews → ReviewState → Outcome Error CoachReview × ReviewState
stored_review (none, reviews) s = (failed internal, s)
stored_review (some r, reviews) s = (done r, record s { reviews = reviews })

-- The guards of the request, in the source's order.
unfoldable pub may_review : ReviewEnv → ℕ → ℕ → CreateReviewInput → ReviewRun (Unit {0})
may_review env coach_id user_id input = do
  check (not (coach_id == user_id)) forbidden
  check (not (ltb input.rating 1 || ltb 5 input.rating)) invalid_input
  check (leb (env.rune_count (env.trim input.comment)) max_review_comment) invalid_input
  coach ← query (λ s. find_coach coach_id s.db.coaches) not_found
  λ s. check (has_completed_session coach_id user_id input.session_id s.db.sessions) forbidden s

-- Not one transaction: a review is kept though its author was marked deleted in the meantime.
unfoldable pub create_review : ReviewEnv → ℕ → ℕ → CreateReviewInput → ReviewRun Review
create_review env coach_id user_id input = do
  may_review env coach_id user_id input
  row ← λ s.
      stored_review
        (upsert_coach_review (upsert_params env coach_id user_id input) env.new_id env.db_now
          s.reviews)
        s
  reviewer ← query (λ s. find_live_user user_id s.db.users) internal
  give (review_of row reviewer.display_name)
