-- ===== src/Coaching/Reviews/Recorded.antt =====
-- What CreateReview of backend/internal/coaching/service.go leaves in the table of reviews.
use dating_coach.Base.{
  ℕ, ◌≤◌, true, false, not, ◌||◌, ◌≡◌, inl, inr, refl, ap, arith, some, [], ◌∷◌, String, leb, ltb,
  ◌==◌, select, length, Bool-cases, Option-cases,
}
use dating_coach.Base.Outcomes.{done, Ensures, bind-Ensures}
use dating_coach.Store.Rows.{Time, CoachRow, UserRow}
use dating_coach.Store.Reviews.{
  CoachReview, UpsertCoachReview, by_client, has_completed_session, upserted,
}
use dating_coach.Coaching.World.{find_coach, find_live_user}
use dating_coach.Coaching.Reviews.{
  ReviewState, ReviewEnv, CreateReviewInput, Review, recommend_threshold, review_of, may_review,
  upsert_params, create_review,
}
use dating_coach.Coaching.Reviews.Upsert.{Upserted, upserted-Upserted}

pub record Allowed (coach_id user_id : ℕ) (input : CreateReviewInput) (s : ReviewState)
    : Type 0 where
  pub apart : (coach_id == user_id) ≡ false
  pub at_least : 1 ≤ input.rating
  pub at_most : input.rating ≤ 5
  pub has_met : has_completed_session coach_id user_id input.session_id s.db.sessions ≡ true

may_review-Allowed :
    (env : ReviewEnv) (coach_id user_id : ℕ) (input : CreateReviewInput) (s : ReviewState)
    → Ensures
        (λ _ t. (t ≡ s) × Allowed coach_id user_id input s)
        (may_review env coach_id user_id input s)
unfolding may_review
may_review-Allowed env coach_id user_id input s = elim (Bool-cases (coach_id == user_id)) [
  | inl a ↦ simp a tt
  | inr a ↦ elim (Bool-cases (ltb input.rating 1 || ltb 5 input.rating)) [
    | inl b ↦ simp (a, b) tt
    | inr b ↦ elim (Bool-cases (leb (env.rune_count (env.trim input.comment)) 2000)) [
      | inr c ↦ simp (a, b, c) tt
      | inl c ↦ elim (Option-cases (find_coach coach_id s.db.coaches)) [
        | inl d ↦ simp (a, b, c, d) tt
        | inr (coach, d) ↦
            elim (Bool-cases
              (has_completed_session coach_id user_id input.session_id s.db.sessions)) [
                | inr e ↦ simp (a, b, c, d, e) tt
                | inl e ↦
                    simp (a, b, c, d, e)
                      (
                        refl,
                        record {
                          apart = a;
                          at_least = ground (arith, b);
                          at_most = ground (arith, b);
                          has_met = e;
                        },
                      )
              ]
      ]
    ]
  ]
]

-- An accepted review: who wrote it, and the table after it.
pub record Recorded (env : ReviewEnv) (coach_id user_id : ℕ) (input : CreateReviewInput)
    (s : ReviewState) (review : Review) (t : ReviewState) : Type 0 where
  pub allowed : Allowed coach_id user_id input s
  pub only : select (by_client coach_id user_id) t.reviews ≡ review.row ∷ []
  pub rated : review.row.rating ≡ input.rating
  pub commented : review.row.comment ≡ env.trim input.comment
  pub recommends : review.recommended ≡ leb recommend_threshold input.rating
  pub others :
      select (λ r. not (by_client coach_id user_id r)) t.reviews
      ≡ select (λ r. not (by_client coach_id user_id r)) s.reviews
  pub database : t.db ≡ s.db

-- The state that the author is looked up in.
abbrev reviewed : ReviewState → UpsertCoachReview → ℕ → Time → ReviewState
reviewed s arg id now = record s { reviews = upserted arg id now s.reviews }

answer-Recorded :
    (env : ReviewEnv) (coach_id user_id : ℕ) (input : CreateReviewInput) (s : ReviewState)
    (row : CoachReview)
    → Allowed coach_id user_id input s
    → Upserted
        (upsert_params env coach_id user_id input)
        s.reviews
        (upserted (upsert_params env coach_id user_id input) env.new_id env.db_now s.reviews)
        row
    → (name : String)
    → Recorded env coach_id user_id input s
        (review_of row name)
        (reviewed s (upsert_params env coach_id user_id input) env.new_id env.db_now)
unfolding review_of
answer-Recorded env coach_id user_id input s row a u name = record {
  allowed = a;
  only = u.only;
  rated = u.rated;
  commented = u.commented;
  recommends = ap (leb recommend_threshold) u.rated;
  others = u.others;
  database = refl;
}

-- Where CreateReview succeeds, the author is not the coach, the rating is from 1 to 5, and a session of
-- the two, the named one where a session is named, is completed; the table then has exactly one review
-- of this coach by this author, with the rating and the trimmed comment of the request, it is answered
-- and it recommends the coach exactly from a rating of 4; the reviews of other pairs and the other
-- tables are as before. Before the request the pair has at most one review, as the unique key says.
pub create_review-Recorded :
    (env : ReviewEnv) (coach_id user_id : ℕ) (input : CreateReviewInput) (s : ReviewState)
    → length (select (by_client coach_id user_id) s.reviews) ≤ 1
    → Ensures (Recorded env coach_id user_id input s) (create_review env coach_id user_id input s)
unfolding create_review
create_review-Recorded env coach_id user_id input s l =
    bind-Ensures (λ _ t. (t ≡ s) × Allowed coach_id user_id input s)
      (Recorded env coach_id user_id input s) (may_review env coach_id user_id input s) _
      (may_review-Allowed env coach_id user_id input s)
      (λ _ t (e, a).
        let arg = upsert_params env coach_id user_id input in
        let (row, u) = upserted-Upserted arg env.new_id env.db_now s.reviews l in
        rw (e, u.returned)
          (elim (Option-cases (find_live_user user_id s.db.users)) [
            | inl n ↦ simp n tt
            | inr (user, n) ↦
                simp n (answer-Recorded env coach_id user_id input s row a u user.display_name)
          ]))

-- A review that the rules allow is written and answered: where the author is not the coach, the rating
-- is from 1 to 5, a completed session is found, the trimmed comment has at most 2000 characters, the
-- coach exists, and the author exists and is not marked deleted, CreateReview succeeds, and what it
-- answers and leaves is as described by Recorded. Before the request the pair has at most one review,
-- as the unique key says.
pub allowed_review_is_kept :
    (env : ReviewEnv) (coach_id user_id : ℕ) (input : CreateReviewInput) (s : ReviewState)
    (coach : CoachRow) (user : UserRow)
    → length (select (by_client coach_id user_id) s.reviews) ≤ 1
    → Allowed coach_id user_id input s
    → leb (env.rune_count (env.trim input.comment)) 2000 ≡ true
    → find_coach coach_id s.db.coaches ≡ some coach
    → find_live_user user_id s.db.users ≡ some user
    → (review : Review) × (t : ReviewState) × (create_review env coach_id user_id input s
        ≡ (done review, t))
      × Recorded env coach_id user_id input s review t
unfolding create_review may_review
allowed_review_is_kept env coach_id user_id input s coach user l a c d n =
    let arg = upsert_params env coach_id user_id input in
    let (row, u) = upserted-Upserted arg env.new_id env.db_now s.reviews l in
    let b : (ltb input.rating 1 || ltb 5 input.rating) ≡ false =
      ground (arith, a.at_least, a.at_most) in
    (
      review_of row user.display_name,
      reviewed s arg env.new_id env.db_now,
      simp (a.apart, b, c, d, a.has_met, u.returned, n) refl,
      answer-Recorded env coach_id user_id input s row a u user.display_name,
    )
