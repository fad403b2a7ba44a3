-- ===== src/Store/Table.antt =====
-- `coaching_sessions` as a list of rows under its primary key: lookup, a write of one row, and what
-- writes keep. `backend/migrations/000001_init.up.sql` declares the key.
use dating_coach.Base.{
  ==→eq, ◌∙◌, Bool-cases, ◌⊎◌, true, ℕ, ◌≡◌, ◌≢◌, refl, arith, Bool, Option, none, some, List, [],
  ◌∷◌, ◌==◌, if◌then◌else◌, Option-cases, inl, inr, All, any, ◌&&◌, not,
}
use dating_coach.Store.Rows.{CoachingSession, conflict}

abbrev pub Rows : Type 0
Rows = List CoachingSession

-- SELECT * FROM coaching_sessions WHERE id = $1
unfoldable pub find_row : ℕ → Rows → Option CoachingSession
find_row i [] = none
find_row i (r ∷ rs) = let rest = find_row i rs in if r.id == i then some r else rest

-- The row under key `i` is replaced.
unfoldable pub put_row : ℕ → CoachingSession → Rows → Rows
put_row i r [] = []
put_row i r (s ∷ ss) = let rest = put_row i r ss in if s.id == i then r ∷ ss else s ∷ rest

-- UPDATE … WHERE id = $1 AND guard RETURNING *: no row when the key is missing or the guard fails.
unfoldable pub update_one :
    ℕ
    → (CoachingSession → Bool)
    → (CoachingSession → CoachingSession)
    → Rows
    → Option CoachingSession × Rows
update_one i guard change rows = elim (find_row i rows) [
  | none ↦ (none, rows)
  | some r ↦ if guard r then (some (change r), put_row i (change r) rows) else (none, rows)
]

-- A statement that the constraints of the table can refuse: a range conflict, any other refusal, or
-- no row that matches.
pub data Write : Type 0 where
  written : CoachingSession → Rows → Write
  slot_conflict rejected no_row : Write

-- The exclusion constraint, for a row about to be written under key `i`.
unfoldable pub conflicts_in : ℕ → CoachingSession → Rows → Bool
conflicts_in i r rows = any (λ s. not (s.id == i) && conflict r s) rows

pub All-find_row :
    (P : CoachingSession → Type 0) (i : ℕ) (r : CoachingSession) (rows : Rows)
    → All P rows
    → find_row i rows ≡ some r
    → P r
unfolding find_row
All-find_row P i r [] h e = cc
All-find_row P i r (s ∷ ss) h e = ground (arith, All-find_row P i r ss h.1)

pub All-put_row :
    (P : CoachingSession → Type 0) (i : ℕ) (r : CoachingSession) (rows : Rows)
    → All P rows
    → P r
    → All P (put_row i r rows)
unfolding put_row
All-put_row P i r [] h k = tt
All-put_row P i r (s ∷ ss) h k = ground (arith, All-put_row P i r ss h.1)

pub find_row-id : (i : ℕ) (r : CoachingSession) (rows : Rows) → find_row i rows ≡ some r → r.id ≡ i
unfolding find_row
find_row-id i r [] e = cc
find_row-id i r (s ∷ ss) e = ground (arith, find_row-id i r ss)

pub find_row-put_row_self :
    (i : ℕ) (r s : CoachingSession) (rows : Rows)
    → r.id ≡ i
    → find_row i rows ≡ some s
    → find_row i (put_row i r rows) ≡ some r
unfolding find_row put_row
find_row-put_row_self i r s [] h e = cc
find_row-put_row_self i r s (t ∷ ts) h e = ground (arith, find_row-put_row_self i r s ts h)

pub find_row-put_row_other :
    (i j : ℕ) (r : CoachingSession) (rows : Rows)
    → r.id ≡ i
    → j ≢ i
    → find_row j (put_row i r rows) ≡ find_row j rows
unfolding find_row put_row
find_row-put_row_other i j r [] h n = refl
find_row-put_row_other i j r (t ∷ ts) h n = ground (arith, find_row-put_row_other i j r ts h n)

pub put_row-put_row :
    (i : ℕ) (r s : CoachingSession) (rows : Rows)
    → s.id ≡ i
    → put_row i r (put_row i s rows) ≡ put_row i r rows
unfolding put_row
put_row-put_row i r s [] h = refl
put_row-put_row i r s (t ∷ ts) h = ground (arith, put_row-put_row i r s ts h)

pub update_one-All :
    (P : CoachingSession → Type 0) (i : ℕ) (guard : CoachingSession → Bool)
    (change : CoachingSession → CoachingSession) (rows : Rows)
    → ((r : CoachingSession) → P r → guard r ≡ true → P (change r))
    → All P rows
    → All P (update_one i guard change rows).1
unfolding update_one
update_one-All P i guard change rows k h = elim (Option-cases (find_row i rows)) [
  | inl e ↦ rw (e, update_one) h
  | inr (r, e) ↦
      rw (e, update_one)
        (ground (arith, k r (All-find_row P i r rows h e), All-put_row P i (change r) rows h))
]

-- What an UPDATE of one row did, when it returned a row.
pub update_one_row :
    (i : ℕ) (guard : CoachingSession → Bool) (change : CoachingSession → CoachingSession)
    (rows : Rows) (r' : CoachingSession)
    → (update_one i guard change rows).0 ≡ some r'
    → (r : CoachingSession) × (find_row i rows ≡ some r)
      × (guard r ≡ true)
      × (r' ≡ change r)
      × ((update_one i guard change rows).1 ≡ put_row i (change r) rows)
unfolding update_one
update_one_row i guard change rows r' h = elim (Option-cases (find_row i rows)) [
  | inl e ↦ ground (arith, e)
  | inr (r, e) ↦ (r, e, ground (arith, e), ground (arith, e), ground (arith, e))
]

-- A row after an UPDATE of one row: as it was, or changed under the guard.
pub find_row-update_one :
    (i k : ℕ) (guard : CoachingSession → Bool) (change : CoachingSession → CoachingSession)
    (rows : Rows) (t : CoachingSession)
    → ((r : CoachingSession) → (change r).id ≡ r.id)
    → find_row i rows ≡ some t
    → (find_row i (update_one k guard change rows).1 ≡ some t)
      ⊎ ((find_row i (update_one k guard change rows).1 ≡ some (change t)) × (guard t ≡ true))
unfolding update_one
find_row-update_one i k guard change rows t key f = elim (Option-cases (find_row k rows)) [
  | inl e ↦ inl (rw (e, update_one) f)
  | inr (r, e) ↦ elim (Bool-cases (guard r)) [
    | inr g ↦ inl (rw (e, update_one) (rw g f))
    | inl g ↦
        let id : (change r).id ≡ k = key r ∙ find_row-id k r rows e in
        elim (Bool-cases (i == k)) [
          | inl here ↦
              let at : i ≡ k = ==→eq i k here in
              let same : t ≡ r = ground (arith, f, e, at) in
              inr (
                rw (e, update_one)
                    (rw (g, at, same) (find_row-put_row_self k (change r) r rows id e)),
                rw same g,
              )
          | inr there ↦ inl (
              rw (e, update_one)
                (rw g (find_row-put_row_other k i (change r) rows id (ground (arith, there)) ∙ f)))
        ]
  ]
]
