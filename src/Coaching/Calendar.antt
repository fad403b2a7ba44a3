-- ===== src/Coaching/Calendar.antt =====
-- The exclusion constraint of coaching_sessions as a property of the table: no two sessions of one
-- coach that hold their slots share an instant, and no two rows share their key.
use dating_coach.Base.{
  subst, inr, ◌∙◌, inl, sym, Bool-cases, ℕ, ◌≡◌, ◌≢◌, arith, Bool, true, false, not, some, [], ◌∷◌,
  All, All-map, any→All, if◌then◌else◌, ◌==◌, ==→eq, is_some, ◌&&◌,
}
use dating_coach.Store.Status.{holds_slot}
use dating_coach.Store.Rows.{CoachingSession, conflict}
use dating_coach.Store.Sweeps.{update_all}
use dating_coach.Store.Table.{All-put_row, All-find_row, Rows, find_row, put_row, conflicts_in}

pub record Apart (r s : CoachingSession) : Type 0 where
  pub keys : r.id ≢ s.id
  pub ranges : conflict r s ≡ false

abbrev pub Exclusive : Rows → Type 0
Exclusive [] = Unit
Exclusive (r ∷ rs) = All (Apart r) rs × Exclusive rs

-- A change of a row that cannot take a slot: only the status moves, and never into a live one.
pub record Shrinks (r r' : CoachingSession) : Type 0 where
  pub same_key : r'.id ≡ r.id
  pub same_coach : r'.coach_id ≡ r.coach_id
  pub same_start : r'.scheduled_time ≡ r.scheduled_time
  pub same_duration : r'.duration_minutes ≡ r.duration_minutes
  pub no_new_hold : holds_slot r'.status ≡ true → holds_slot r.status ≡ true

pub conflict_comm : (r s : CoachingSession) → conflict r s ≡ conflict s r
conflict_comm r s = ground arith

Apart-symmetric : (r s : CoachingSession) → Apart r s → Apart s r
Apart-symmetric r s a = record { keys = λ e. a.keys (sym e); ranges = conflict_comm s r ∙ a.ranges }

Apart-Shrinks : (r r' s : CoachingSession) → Shrinks r r' → Apart r s → Apart r' s
Apart-Shrinks r r' s k a = record { keys = ground arith; ranges = ground arith }

-- What the constraint looks for: another key, and a conflict.
abbrev pub clashes : ℕ → CoachingSession → CoachingSession → Bool
clashes i r s = not (s.id == i) && conflict r s

-- A row that clashes with none may take the place under its key.
abbrev pub Clear : ℕ → CoachingSession → Rows → Type 0
Clear i r rows = All (λ s. clashes i r s ≡ false) rows

pub conflicts_in-Clear :
    (i : ℕ) (r : CoachingSession) (rows : Rows) → conflicts_in i r rows ≡ false → Clear i r rows
unfolding conflicts_in
conflicts_in-Clear i r rows h = any→All (clashes i r) rows h

Apart-clashes : (i : ℕ) (r s : CoachingSession) → Apart r s → clashes i r s ≡ false
Apart-clashes i r s a = ground (arith, a.ranges)

pub find_row-Clear :
    (i : ℕ) (r : CoachingSession) (rows : Rows)
    → Exclusive rows
    → find_row i rows ≡ some r
    → Clear i r rows
unfolding find_row
find_row-Clear i r [] x e = tt
find_row-Clear i r (t ∷ ts) x e = elim (Bool-cases (t.id == i)) [
  | inl here ↦
      let same : t ≡ r = ground arith in
      (
        ground arith,
        subst (λ q. Clear i q ts) same
            (All-map {P = Apart t} {Q = λ s. clashes i t s ≡ false} (Apart-clashes i t) ts x.0),
      )
  | inr there ↦
      let below : find_row i ts ≡ some r = ground arith in
      (
        Apart-clashes i r t (Apart-symmetric t r (All-find_row (Apart t) i r ts x.0 below)),
        find_row-Clear i r ts x.1 below,
      )
]

shrunk-clashes :
    (i : ℕ) (r r' s : CoachingSession)
    → Shrinks r r'
    → clashes i r s ≡ false
    → clashes i r' s ≡ false
shrunk-clashes i r r' s k h = ground arith

pub Clear-Shrinks :
    (i : ℕ) (r r' : CoachingSession) (rows : Rows) → Shrinks r r' → Clear i r rows → Clear i r' rows
Clear-Shrinks i r r' rows k =
    All-map {P = λ s. clashes i r s ≡ false} {Q = λ s. clashes i r' s ≡ false}
      (λ s. shrunk-clashes i r r' s k) rows

Apart-clear :
    (r t s : CoachingSession) → r.id ≡ t.id → Apart t s → clashes t.id r s ≡ false → Apart r s
Apart-clear r t s e a h = record { keys = ground (arith, a.keys); ranges = ground (arith, a.keys) }

Clear-Apart :
    (r t : CoachingSession) (rows : Rows)
    → r.id ≡ t.id
    → All (Apart t) rows
    → Clear t.id r rows
    → All (Apart r) rows
Clear-Apart r t [] e a c = tt
Clear-Apart r t (s ∷ ss) e a c = (Apart-clear r t s e a.0 c.0, Clear-Apart r t ss e a.1 c.1)

Apart-other :
    (i : ℕ) (r t : CoachingSession)
    → r.id ≡ i
    → t.id == i ≡ false
    → clashes i r t ≡ false
    → Apart t r
Apart-other i r t e n h = record { keys = ground arith; ranges = ground (arith, conflict_comm t r) }

-- Writing a row under its key keeps the calendar exclusive when the row is clear of the others.
pub put_row-Exclusive :
    (i : ℕ) (r : CoachingSession) (rows : Rows)
    → r.id ≡ i
    → Clear i r rows
    → Exclusive rows
    → Exclusive (put_row i r rows)
unfolding put_row
put_row-Exclusive i r [] e c x = tt
put_row-Exclusive i r (t ∷ ts) e c x = elim (Bool-cases (t.id == i)) [
  | inl here ↦
      let same : t.id ≡ i = ==→eq _ _ here in
      rw here
        (Clear-Apart r t ts (e ∙ sym same) x.0 (subst (λ j. Clear j r ts) (sym same) c.1), x.1)
  | inr there ↦ rw there (
    All-put_row (Apart t) i r ts x.0 (Apart-other i r t e there c.0),
    put_row-Exclusive i r ts e c.1 x.1,
  )
]

-- A key that is not found is in no row.
fresh-Apart :
    (r : CoachingSession) (rows : Rows)
    → is_some (find_row r.id rows) ≡ false
    → Clear r.id r rows
    → All (Apart r) rows
unfolding find_row
fresh-Apart r [] f c = tt
fresh-Apart r (s ∷ ss) f c = (
  record { keys = ground arith; ranges = ground (arith, c.0) },
  fresh-Apart r ss (ground arith) c.1,
)

pub insert-Exclusive :
    (r : CoachingSession) (rows : Rows)
    → is_some (find_row r.id rows) ≡ false
    → conflicts_in r.id r rows ≡ false
    → Exclusive rows
    → Exclusive (r ∷ rows)
insert-Exclusive r rows f c x = (fresh-Apart r rows f (conflicts_in-Clear r.id r rows c), x)

module _ (guard : CoachingSession → Bool) (change : CoachingSession → CoachingSession)
    (shrinks : (r : CoachingSession) → guard r ≡ true → Shrinks r (change r)) where
  Apart-change : (r s : CoachingSession) → Apart r s → Apart r (if guard s then change s else s)
  Apart-change r s a = elim (Bool-cases (guard s)) [
    | inl g ↦
        rw g
          (Apart-symmetric _ r (Apart-Shrinks s (change s) r (shrinks s g) (Apart-symmetric r s a)))
    | inr g ↦ rw g a
  ]

  All-Apart-change :
      (r : CoachingSession) (rows : Rows)
      → All (Apart r) rows
      → All (Apart r) (update_all guard change rows)
  unfolding update_all
  All-Apart-change r [] a = tt
  All-Apart-change r (s ∷ ss) a = (Apart-change r s a.0, All-Apart-change r ss a.1)

  changed-All :
      (r : CoachingSession) (rows : Rows)
      → All (Apart r) rows
      → All (Apart (if guard r then change r else r)) rows
  changed-All r rows a = elim (Bool-cases (guard r)) [
    | inl g ↦ rw g (
        All-map {P = Apart r} {Q = Apart (change r)}
          (λ s. Apart-Shrinks r (change r) s (shrinks r g)) rows a)
    | inr g ↦ rw g a
  ]

  -- Sweeps that only free slots keep the calendar exclusive.
  pub update_all-Exclusive :
      (rows : Rows) → Exclusive rows → Exclusive (update_all guard change rows)
  unfolding update_all
  update_all-Exclusive [] x = tt
  update_all-Exclusive (r ∷ rs) x = (
    changed-All r (update_all guard change rs) (All-Apart-change r rs x.0),
    update_all-Exclusive rs x.1,
  )
