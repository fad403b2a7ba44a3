-- ===== src/Store/Reviews.antt =====
-- The table coach_reviews (migrations/000013_coach_reviews.up.sql) and the statements on it in
-- backend/internal/store/db/coaching.sql.go. The foreign keys hold: a completed session of the two
-- parties, which the service asks for first, names both and is itself a row.
use dating_coach.Base.{
  ℕ, Bool, true, ◌&&◌, Option, none, some, List, ◌∷◌, String, ◌==◌, any, if◌then◌else◌, find_first,
  update_where,
}
use dating_coach.Store.Status.{completed, status_eq}
use dating_coach.Store.Rows.{CoachingSession, Time}
use dating_coach.Store.Table.{Rows}

pub record CoachReview : Type 0 where
  pub id : ℕ
  pub coach_id : ℕ
  pub user_id : ℕ
  pub session_id : Option ℕ
  pub rating : ℕ
  pub comment : String
  pub created_at : Time
  pub updated_at : Time

abbrev pub Reviews : Type 0
Reviews = List CoachReview

abbrev pub is_or_any : Option ℕ → ℕ → Bool
is_or_any none i = true
is_or_any (some j) i = i == j

abbrev pub is_completed_with : ℕ → ℕ → Option ℕ → CoachingSession → Bool
is_completed_with coach_id user_id session_id r =
    r.coach_id == coach_id
    && r.user_id == user_id
    && status_eq r.status completed
    && is_or_any session_id r.id

unfoldable pub has_completed_session : ℕ → ℕ → Option ℕ → Rows → Bool
has_completed_session coach_id user_id session_id rows =
    any (is_completed_with coach_id user_id session_id) rows

-- UNIQUE (coach_id, user_id)
abbrev pub by_client : ℕ → ℕ → CoachReview → Bool
by_client coach_id user_id r = r.coach_id == coach_id && r.user_id == user_id

pub record UpsertCoachReview : Type 0 where
  pub coach_id : ℕ
  pub user_id : ℕ
  pub session_id : Option ℕ
  pub rating : ℕ
  pub comment : String

abbrev pub replaced_review : UpsertCoachReview → Time → CoachReview → CoachReview
replaced_review arg now r = record r {
  session_id = arg.session_id;
  rating = arg.rating;
  comment = arg.comment;
  updated_at = now;
}

abbrev pub new_review : UpsertCoachReview → ℕ → Time → CoachReview
new_review arg id now = record {
  id = id;
  coach_id = arg.coach_id;
  user_id = arg.user_id;
  session_id = arg.session_id;
  rating = arg.rating;
  comment = arg.comment;
  created_at = now;
  updated_at = now;
}

-- The table after the statement, and the row that it returns.
unfoldable pub upserted : UpsertCoachReview → ℕ → Time → Reviews → Reviews
upserted arg id now reviews =
    if any (by_client arg.coach_id arg.user_id) reviews
    then update_where (by_client arg.coach_id arg.user_id) (replaced_review arg now) reviews
    else new_review arg id now ∷ reviews

abbrev pub upsert_coach_review :
    UpsertCoachReview → ℕ → Time → Reviews → Option CoachReview × Reviews
upsert_coach_review arg id now reviews = (
  find_first (by_client arg.coach_id arg.user_id) (upserted arg id now reviews),
  upserted arg id now reviews,
)
