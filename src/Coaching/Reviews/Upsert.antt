-- ===== src/Coaching/Reviews/Upsert.antt =====
-- What the upsert of a review leaves (UpsertCoachReview of backend/internal/store/db/coaching.sql.go).
use dating_coach.Base.{
  ℕ, ◌≤◌, Bool, true, false, not, ◌≡◌, inl, inr, refl, ap, arith, some, [], ◌∷◌, ==-refl, any,
  select, length, find_first, update_where, Bool-cases,
}
use dating_coach.Store.Rows.{Time}
use dating_coach.Store.Reviews.{
  CoachReview, Reviews, UpsertCoachReview, by_client, upserted, replaced_review, new_review,
}

module _ (p : CoachReview → Bool) (f : CoachReview → CoachReview)
    (k : (r : CoachReview) → p (f r) ≡ p r) where
  none_updated : (rs : Reviews) → length (select p rs) ≤ 0 → select p (update_where p f rs) ≡ []
  none_updated [] l = refl
  none_updated (r ∷ rs) l = elim (Bool-cases (p r)) [
    | inl e ↦ ground (arith, e, l)
    | inr e ↦ simp e (none_updated rs (simp e at l))
  ]

  one_updated :
      (rs : Reviews)
      → any p rs ≡ true
      → length (select p rs) ≤ 1
      → (r : CoachReview) × (select p (update_where p f rs) ≡ f r ∷ [])
        × (find_first p (update_where p f rs) ≡ some (f r))
  one_updated [] a l = ground (arith, a)
  one_updated (r ∷ rs) a l = elim (Bool-cases (p r)) [
    | inl e ↦
        let n = none_updated rs (ground (arith, e, l)) in
        (r, simp (e, k r) (ap (◌∷◌ (f r)) n), simp (e, k r) refl)
    | inr e ↦ let (x, m, n) = one_updated rs (simp e at a) (simp e at l) in (x, simp e m, simp e n)
  ]

  others_updated :
      (rs : Reviews) → select (λ r. not (p r)) (update_where p f rs) ≡ select (λ r. not (p r)) rs
  others_updated [] = refl
  others_updated (r ∷ rs) = elim (Bool-cases (p r)) [
    | inl e ↦ simp (e, k r) (others_updated rs)
    | inr e ↦ simp e (ap (◌∷◌ r) (others_updated rs))
  ]

-- No review of the pair, and a new one in front.
none_before : (p : CoachReview → Bool) (rs : Reviews) → any p rs ≡ false → select p rs ≡ []
none_before p [] a = refl
none_before p (r ∷ rs) a = ground (arith, a, none_before p rs)

-- What the statement leaves, under the unique key.
pub record Upserted (arg : UpsertCoachReview) (rs after : Reviews) (row : CoachReview)
    : Type 0 where
  pub only : select (by_client arg.coach_id arg.user_id) after ≡ row ∷ []
  pub returned : find_first (by_client arg.coach_id arg.user_id) after ≡ some row
  pub rated : row.rating ≡ arg.rating
  pub commented : row.comment ≡ arg.comment
  pub others :
      select (λ r. not (by_client arg.coach_id arg.user_id r)) after
      ≡ select (λ r. not (by_client arg.coach_id arg.user_id r)) rs

pub upserted-Upserted :
    (arg : UpsertCoachReview) (id : ℕ) (now : Time) (rs : Reviews)
    → length (select (by_client arg.coach_id arg.user_id) rs) ≤ 1
    → (row : CoachReview) × Upserted arg rs (upserted arg id now rs) row
unfolding upserted
upserted-Upserted arg id now rs l =
    let p = by_client arg.coach_id arg.user_id in
    elim (Bool-cases (any p rs)) [
      | inl a ↦
          let (x, m, n) = one_updated p (replaced_review arg now) (λ r. refl) rs a l in
          (
            replaced_review arg now x,
            simp a (record {
              only = m;
              returned = n;
              rated = refl;
              commented = refl;
              others = others_updated p (replaced_review arg now) (λ r. refl) rs;
            }),
          )
      | inr a ↦
          let y = new_review arg id now in
          let e : p y ≡ true = simp (==-refl arg.coach_id, ==-refl arg.user_id) refl in
          (
            y,
            simp a (record {
              only = rw e (ap (◌∷◌ y) (none_before p rs a));
              returned = rw e refl;
              rated = refl;
              commented = refl;
              others = rw e refl;
            }),
          )
    ]
