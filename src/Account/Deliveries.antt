-- ===== src/Account/Deliveries.antt =====
-- What one delivery does to the tracking of deletions (Consume of backend/internal/account/queue.go,
-- Handle of worker.go).
use dating_coach.Base.{
  ℕ, Bool, true, false, not, ◌≡◌, refl, sym, ap, subst, arith, ◌⊎◌, inl, inr, List, [], ◌∷◌, ◌==◌,
  any, select, All, All-map, All-select, select-All, any→All, if◌then◌else◌, Bool-cases,
}
use dating_coach.Store.Users.{User, Users, delete_user, user_row_exists}
use dating_coach.Store.Deletions.{DeletionRow, Deletions, recorded_for, finish_user_deletion}
use dating_coach.Account.Queue.{job, Delivery, Broker}
use dating_coach.Account.Worker.{WorkerEnv, handle_job, remove, finish, deleted, revoked_state}
use dating_coach.Account.Tracking.{carries, IsPursued, IsRecorded}
use dating_coach.Auth.World.{AuthState}

-- What a pass over a job leaves: the queues, the outbox without the user's row where the pass
-- succeeded, and then no row of the user.
abbrev pub IsApplied : ℕ → AuthState → Bool × AuthState → Type 0
IsApplied i s (ok, s') =
    (s'.broker ≡ s.broker)
    × (s'.deletions ≡ (if ok then finish_user_deletion i s.deletions else s.deletions))
    × (ok ≡ true → All (λ (u : User). u.id == i ≡ false) s'.users)
    × ((s'.users ≡ s.users) ⊎ (s'.users ≡ delete_user i s.users))

removed-All : (i : ℕ) (users : Users) → All (λ (u : User). u.id == i ≡ false) (delete_user i users)
unfolding delete_user
removed-All i users =
    All-map (λ u h. ground (arith, h)) _ (select-All (λ (u : User). not (u.id == i)) users)

pub applied-All :
    (P : User → Type 0) (i : ℕ) (s : AuthState) (r : Bool × AuthState)
    → IsApplied i s r
    → All P s.users
    → All P r.1.users
unfolding delete_user
applied-All P i s (ok, s') (_, _, _, inl e) h = subst (All P) (sym e) h
applied-All P i s (ok, s') (_, _, _, inr e) h =
    subst (All P) (sym e) (All-select P (λ (u : User). not (u.id == i)) s.users h)

remove-IsApplied :
    (env : WorkerEnv) (i : ℕ) (s : AuthState) → IsApplied i s (remove env i (revoked_state env i s))
unfolding remove finish
remove-IsApplied env i s = elim (Bool-cases env.deletes) [
  | inr p ↦ rw p (refl, refl, λ e. ground (arith, e), inl refl)
  | inl p ↦ elim (Bool-cases env.finishes) [
    | inl q ↦ rw p (rw q (refl, refl, λ e. removed-All i s.users, inr refl))
    | inr q ↦ rw p (rw q (refl, refl, λ e. ground (arith, e), inr refl))
  ]
]

pub handle_job-IsApplied :
    (env : WorkerEnv) (i : ℕ) (s : AuthState) → IsApplied i s (handle_job env i s)
unfolding handle_job deleted finish user_row_exists
handle_job-IsApplied env i s = elim (Bool-cases env.revokes) [
  | inl r ↦ simp r (remove-IsApplied env i s)
  | inr r ↦ elim (Bool-cases (deleted env i s)) [
    | inr d ↦ simp (r, d) (refl, refl, λ e. ground (arith, e), inl refl)
    | inl d ↦ elim (Bool-cases env.finishes) [
      | inr f ↦ simp (r, d, f) (refl, refl, λ e. ground (arith, e), inl refl)
      | inl f ↦
          let a = any→All (λ (u : User). u.id == i) s.users (ground (arith, d)) in
          simp (r, d, f) (refl, refl, λ e. a, inl refl)
    ]
  ]
]

carries-other : (i j : ℕ) (d : Delivery) → d.body ≡ job i → j == i ≡ false → carries j d ≡ false
carries-other i j d o n = rw o (ground (arith, n))

other-IsPursued :
    (i : ℕ) (b : Broker) (d : Delivery) (ds : List Delivery) (r : DeletionRow)
    → b.work ≡ d ∷ ds
    → d.body ≡ job i
    → recorded_for i r ≡ false
    → IsPursued b r
    → IsPursued (record b { work = ds }) r
other-IsPursued i b d ds r e o p h =
    let c = carries-other i r.user_id d o p in
    let w = ap (any (carries r.user_id)) e in ground (arith, c, w, h)

-- A row of another user keeps its job when a delivery is taken off.
pub others-IsPursued :
    (i : ℕ) (b : Broker) (d : Delivery) (ds : List Delivery) (rows : Deletions)
    → b.work ≡ d ∷ ds
    → d.body ≡ job i
    → All (IsPursued b) rows
    → All (IsPursued (record b { work = ds })) (finish_user_deletion i rows)
unfolding finish_user_deletion
others-IsPursued i b d ds [] e o h = tt
others-IsPursued i b d ds (r ∷ rows) e o h =
    let rest = others-IsPursued i b d ds rows e o h.1 in
    elim (Bool-cases (recorded_for i r)) [
      | inl p ↦ rw p rest
      | inr p ↦ rw p (other-IsPursued i b d ds r e o p h.0, rest)
    ]

recorded-other :
    (i j : ℕ) (rows : Deletions)
    → j == i ≡ false
    → any (recorded_for j) (select (λ d. not (recorded_for i d)) rows) ≡ any (recorded_for j) rows
recorded-other i j [] n = refl
recorded-other i j (r ∷ rows) n = ground (arith, n, recorded-other i j rows n)

pub others-IsRecorded :
    (i : ℕ) (rows : Deletions) (users : Users)
    → All (λ (u : User). u.id == i ≡ false) users
    → All (IsRecorded rows) users
    → All (IsRecorded (finish_user_deletion i rows)) users
unfolding finish_user_deletion
others-IsRecorded i rows [] n h = tt
others-IsRecorded i rows (u ∷ users) n h = (
  (let e = recorded-other i u.id rows n.0 in let k = h.0 in ground (arith, e, k)),
  others-IsRecorded i rows users n.1 h.1,
)
