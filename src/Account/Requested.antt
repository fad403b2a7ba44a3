-- ===== src/Account/Requested.antt =====
-- The statement that records a deletion (RequestUserDeletion of
-- backend/internal/store/db/account_deletions.sql.go) keeps track of every deletion.
use dating_coach.Base.{
  ◌∙◌, ℕ, true, ◌≡◌, refl, sym, subst, arith, inl, inr, ◌==◌, any, All, All-map, update_where,
  All-update_where, Bool-cases,
}
use dating_coach.Store.Rows.{Time}
use dating_coach.Store.Users.{User, Users, marked_user}
use dating_coach.Store.Deletions.{Deletions, recorded_for, record_deletion, requested_row}
use dating_coach.Account.Queue.{Broker}
use dating_coach.Account.Tracking.{IsPursued, IsRecorded, any-update_where}

-- A deletion that is recorded waits to be published.
pub record_deletion-IsPursued :
    (i : ℕ) (now : Time) (b : Broker) (rows : Deletions)
    → All (IsPursued b) rows
    → All (IsPursued b) (record_deletion i now rows)
unfolding record_deletion requested_row
record_deletion-IsPursued i now b rows h = elim (Bool-cases (any (recorded_for i) rows)) [
  | inr n ↦ rw n (refl, h)
  | inl n ↦
      rw n
        (All-update_where (IsPursued b) (recorded_for i) (requested_row now) rows (λ d p m. refl) h)
]

recorded_stays :
    (i j : ℕ) (now : Time) (rows : Deletions)
    → any (recorded_for j) rows ≡ true
    → any (recorded_for j) (record_deletion i now rows) ≡ true
unfolding record_deletion requested_row
recorded_stays i j now rows h = elim (Bool-cases (any (recorded_for i) rows)) [
  | inr n ↦ rw n (ground (arith, h))
  | inl n ↦
      rw n (
        any-update_where (recorded_for j) (recorded_for i) (requested_row now) rows (λ d. refl) ∙ h)
]

recorded_now :
    (i : ℕ) (now : Time) (rows : Deletions)
    → any (recorded_for i) (record_deletion i now rows) ≡ true
unfolding record_deletion requested_row
recorded_now i now rows = elim (Bool-cases (any (recorded_for i) rows)) [
  | inr n ↦ rw n (ground arith)
  | inl n ↦
      rw n (
        any-update_where (recorded_for i) (recorded_for i) (requested_row now) rows (λ d. refl) ∙ n)
]

kept-IsRecorded :
    (i : ℕ) (now : Time) (rows : Deletions) (u : User)
    → IsRecorded rows u
    → IsRecorded (record_deletion i now rows) u
kept-IsRecorded i now rows u h = let k = recorded_stays i u.id now rows in ground (arith, k, h)

marked_user-IsRecorded :
    (i : ℕ) (now : Time) (rows : Deletions) (u : User)
    → u.id ≡ i
    → IsRecorded (record_deletion i now rows) (marked_user now u)
unfolding marked_user
marked_user-IsRecorded i now rows u e =
    let k =
      subst (λ j. any (recorded_for j) (record_deletion i now rows) ≡ true) (sym e)
        (recorded_now i now rows) in
    ground (arith, k)

-- Marking the users and recording the deletion go together.
pub marked-IsRecorded :
    (i : ℕ) (now : Time) (rows : Deletions) (users : Users)
    → All (IsRecorded rows) users
    → All
        (IsRecorded (record_deletion i now rows))
        (update_where (λ (u : User). u.id == i) (marked_user now) users)
marked-IsRecorded i now rows users h =
    All-update_where (IsRecorded (record_deletion i now rows)) (λ (u : User). u.id == i)
      (marked_user now) users (λ u k m. marked_user-IsRecorded i now rows u (ground (arith, m)))
      (All-map (λ u k. kept-IsRecorded i now rows u k) users h)
