-- ===== src/Coaching/Expiry/Batch.antt =====
-- One batch of expireBatch (backend/internal/coaching/service.go): the overdue requests after it.
use dating_coach.Coaching.Sound.Sweeps.{All-take}
use dating_coach.Base.{
  ltb→lt, sym, subst, map, ◌∙◌, insert_by, ap, ℕ, zero, suc, ◌≡◌, ◌≤◌, ◌<◌, ◌⊎◌, refl, arith, Bool,
  true, false, not, ◌&&◌, ◌==◌, [], ◌∷◌, inl, inr, Bool-cases, length, take, select, any, All,
  All-map, All-sort_by, any-sort_by, any-select, ltb, sort_by,
}
use dating_coach.Store.Rows.{CoachingSession}
use dating_coach.Store.Table.{Rows}
use dating_coach.Store.Sweeps.{
  update_all, overdue, expired_row, overdue_batch, in_batch, expire_pending_sessions, time_or_zero,
}
use dating_coach.Coaching.World.{Env}
use dating_coach.Coaching.Sweep

-- A request that the sweep must expire and can lock.
abbrev pub is_due : Env → CoachingSession → Bool
is_due env r = overdue env.db_now r && not (env.held r.id)

abbrev pub due_rows : Env → Rows → Rows
due_rows env rows = select (is_due env) rows

expired_not_due : (env : Env) (r : CoachingSession) → is_due env (expired_row env.db_now r) ≡ false
unfolding overdue expired_row
expired_not_due env r = refl

length-insert_by :
    (r : CoachingSession) (xs : Rows)
    → length (insert_by (λ (s : CoachingSession). time_or_zero s.respond_by) r xs) ≡ suc (length xs)
length-insert_by r [] = refl
length-insert_by r (x ∷ xs) = ground (arith, length-insert_by r xs)

length-sort_by :
    (xs : Rows)
    → length (sort_by (λ (s : CoachingSession). time_or_zero s.respond_by) xs) ≡ length xs
length-sort_by [] = refl
length-sort_by (x ∷ xs) =
    length-insert_by x (sort_by (λ (s : CoachingSession). time_or_zero s.respond_by) xs)
    ∙ ground (arith, length-sort_by xs)

-- A short prefix is the whole list.
take-short : (n : ℕ) (xs : Rows) → length (take n xs) < n → take n xs ≡ xs
take-short zero xs h = ground (arith, h)
take-short (suc n) [] h = refl
take-short (suc n) (x ∷ xs) h = ap (λ ys. x ∷ ys) (take-short n xs (omega (arith, h)))

-- Each row finds its own key among the due rows, where it is due.
finds_itself :
    (p : CoachingSession → Bool) (rows : Rows)
    → All (λ r. p r ≡ true → any (λ s. p s && s.id == r.id) rows ≡ true) rows
finds_itself p [] = tt
finds_itself p (x ∷ xs) =
    (λ h. ground (arith, h), All-map (λ r k h. ground (arith, k h)) xs (finds_itself p xs))

batch_covers :
    (env : Env) (rows : Rows)
    → All
        (λ r.
          is_due env r ≡ true
          → in_batch
              (sort_by (λ (s : CoachingSession). time_or_zero s.respond_by) (due_rows env rows))
              r
            ≡ true)
        rows
unfolding in_batch
batch_covers env rows =
    All-map
      (λ r k h.
        any-sort_by (λ (s : CoachingSession). time_or_zero s.respond_by) (λ s. s.id == r.id)
          (due_rows env rows)
        ∙ any-select (λ s. s.id == r.id) (is_due env) rows
        ∙ k h)
      rows (finds_itself (is_due env) rows)

-- A batch that covers the due rows leaves none.
covered_none :
    (env : Env) (p : CoachingSession → Bool) (rows : Rows)
    → All (λ r. is_due env r ≡ true → p r ≡ true) rows
    → due_rows env (update_all p (expired_row env.db_now) rows) ≡ []
unfolding update_all
covered_none env p [] h = refl
covered_none env p (r ∷ rows) h = elim (Bool-cases (p r)) [
  | inl y ↦ rw (y, expired_not_due env r) (covered_none env p rows h.1)
  | inr n ↦ elim (Bool-cases (is_due env r)) [
    | inl d ↦ ground (arith, h.0 d, n)
    | inr d ↦ rw (n, d) (covered_none env p rows h.1)
  ]
]

-- Expiring rows makes none due, and at least one due row of the batch fewer.
never_more :
    (env : Env) (p : CoachingSession → Bool) (rows : Rows)
    → length (due_rows env (update_all p (expired_row env.db_now) rows))
      ≤ length (due_rows env rows)
unfolding update_all
never_more env p [] = omega arith
never_more env p (r ∷ rows) = elim (Bool-cases (p r)) [
  | inl y ↦ rw (y, expired_not_due env r) (ground (arith, never_more env p rows))
  | inr n ↦ rw n (ground (arith, never_more env p rows))
]

one_less :
    (env : Env) (p : CoachingSession → Bool) (rows : Rows)
    → any (λ r. is_due env r && p r) rows ≡ true
    → length (due_rows env (update_all p (expired_row env.db_now) rows))
      < length (due_rows env rows)
unfolding update_all
one_less env p [] h = cc
one_less env p (r ∷ rows) h = elim (Bool-cases (p r)) [
  | inl y ↦
      rw (y, expired_not_due env r)
        (ground (arith, y, h, never_more env p rows, one_less env p rows))
  | inr n ↦ rw n (ground (arith, n, h, one_less env p rows))
]

short_batch_covers :
    (env : Env) (rows : Rows)
    → ltb
        (length (overdue_batch Sweep.expire_batch_size env.held env.db_now rows))
        Sweep.expire_batch_size
      ≡ true
    → All
        (λ r.
          is_due env r ≡ true
          → in_batch (overdue_batch Sweep.expire_batch_size env.held env.db_now rows) r ≡ true)
        rows
unfolding overdue_batch
short_batch_covers env rows h =
    let sorted = sort_by (λ (s : CoachingSession). time_or_zero s.respond_by) (due_rows env rows) in
    subst (λ batch. All (λ r. is_due env r ≡ true → in_batch batch r ≡ true) rows)
      (sym (take-short Sweep.expire_batch_size sorted (ltb→lt _ _ h))) (batch_covers env rows)

-- Each due row's key is the key of a due row of the table.
abbrev HasKey : Env → Rows → CoachingSession → Type 0
HasKey env rows r = any (λ s. is_due env s && s.id == r.id) rows ≡ true

All-selected :
    (P : CoachingSession → Type 0) (p : CoachingSession → Bool) (xs : Rows)
    → All (λ r. p r ≡ true → P r) xs
    → All P (select p xs)
All-selected P p [] h = tt
All-selected P p (x ∷ xs) h = elim (Bool-cases (p x)) [
  | inl y ↦ rw y (h.0 y, All-selected P p xs h.1)
  | inr n ↦ rw n (All-selected P p xs h.1)
]

any_mono :
    (p q : CoachingSession → Bool) (xs : Rows)
    → ((r : CoachingSession) → p r ≡ true → q r ≡ true)
    → any p xs ≡ true
    → any q xs ≡ true
any_mono p q [] k h = h
any_mono p q (x ∷ xs) k h = elim (Bool-cases (p x)) [
  | inl y ↦ rw (k x y) refl
  | inr n ↦ ground (arith, any_mono p q xs k (ground (arith, h, n)))
]

batch_keys :
    (env : Env) (n : ℕ) (rows : Rows)
    → All (HasKey env rows) (overdue_batch n env.held env.db_now rows)
unfolding overdue_batch
batch_keys env n rows = All-take (HasKey env rows) n _ (
    All-sort_by (λ (s : CoachingSession). time_or_zero s.respond_by) (HasKey env rows)
      (due_rows env rows)
      (All-selected (HasKey env rows) (is_due env) rows (finds_itself (is_due env) rows)))

full_batch_hits :
    (env : Env) (rows batch : Rows)
    → All (HasKey env rows) batch
    → 0 < length batch
    → any (λ r. is_due env r && in_batch batch r) rows ≡ true
unfolding in_batch
full_batch_hits env rows [] h k = ground (arith, k)
full_batch_hits env rows (b ∷ bs) h k =
    any_mono (λ s. is_due env s && s.id == b.id) (λ r. is_due env r && in_batch (b ∷ bs) r) rows
      (λ r e. ground (arith, e)) h.0

-- What a batch did, by whether it was full.
abbrev pub Progress : Env → Rows → ℕ → Rows → Type 0
Progress env rows n rows' =
    ((ltb n Sweep.expire_batch_size ≡ true) × (due_rows env rows' ≡ []))
    ⊎ ((ltb n Sweep.expire_batch_size ≡ false)
        × (length (due_rows env rows') < length (due_rows env rows)))

length-map : (f : CoachingSession → CoachingSession) (xs : Rows) → length (map f xs) ≡ length xs
length-map f [] = refl
length-map f (x ∷ xs) = ap suc (length-map f xs)

pub expire_pending_sessions-Progress :
    (env : Env) (rows : Rows)
    → Progress env rows
        (length (expire_pending_sessions Sweep.expire_batch_size env.held env.db_now rows).0)
        (expire_pending_sessions Sweep.expire_batch_size env.held env.db_now rows).1
unfolding expire_pending_sessions
expire_pending_sessions-Progress env rows =
    let batch = overdue_batch Sweep.expire_batch_size env.held env.db_now rows in
    let same = length-map (expired_row env.db_now) batch in
    elim (Bool-cases (ltb (length batch) Sweep.expire_batch_size)) [
      | inl short ↦ inl (
        rw same short,
        covered_none env (in_batch batch) rows (short_batch_covers env rows short),
      )
      | inr full ↦ inr (
        rw same full,
        one_less env (in_batch batch) rows (
            full_batch_hits env rows batch (batch_keys env Sweep.expire_batch_size rows)
              (ground (arith, full))),
      )
    ]
