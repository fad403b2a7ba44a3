-- ===== src/Coaching/Sound.antt =====
-- The invariant of coaching_sessions, and the statements that keep it: every row is consistent, and
-- no coach is booked twice at one time.
use dating_coach.Base.{
  [], ◌∷◌, ◌∷◌, ◌∙◌, ℕ, ◌≡◌, arith, Bool, true, false, Option, none, some, All, Option-cases,
  Bool-cases, inl, inr, subst, if◌then◌else◌, is_some,
}
use dating_coach.Store.Status.{holds_slot}
use dating_coach.Store.Rows.{CoachingSession}
use dating_coach.Store.Table.{
  Rows, Write, written, slot_conflict, rejected, no_row, find_row, put_row, update_one,
  conflicts_in, find_row-id, All-find_row, All-put_row,
}
use dating_coach.Store.Inserts.{duration_allowed, insert_row}
use dating_coach.Store.Updates.{write_one}
use dating_coach.Store.Sweeps.{update_all}
use dating_coach.Coaching.Lifecycle.{IsConsistent}
use dating_coach.Coaching.Calendar.{
  Exclusive, Shrinks, Clear, put_row-Exclusive, insert-Exclusive, update_all-Exclusive,
  find_row-Clear, Clear-Shrinks, conflicts_in-Clear,
}
pub mod Handlers
pub mod Answering
pub mod Changes
pub mod Moving
pub mod Booking
pub mod Payments
pub mod Sweeps
pub mod Cleanup

pub record IsSound (rows : Rows) : Type 0 where
  pub consistent : All IsConsistent rows
  pub exclusive : Exclusive rows

pub put_row-IsSound :
    (i : ℕ) (r r' : CoachingSession) (rows : Rows)
    → find_row i rows ≡ some r
    → IsConsistent r'
    → Shrinks r r'
    → IsSound rows
    → IsSound (put_row i r' rows)
put_row-IsSound i r r' rows e c k v = record {
  consistent = All-put_row IsConsistent i r' rows v.consistent c;
  exclusive =
      put_row-Exclusive i r' rows (k.same_key ∙ find_row-id i r rows e)
        (Clear-Shrinks i r r' rows k (find_row-Clear i r rows v.exclusive e)) v.exclusive;
}

-- A change under a guard that keeps a row consistent and takes no slot.
pub record Keeps (guard : CoachingSession → Bool) (change : CoachingSession → CoachingSession)
    (r : CoachingSession) : Type 0 where
  pub consistent : IsConsistent r → guard r ≡ true → IsConsistent (change r)
  pub shrinks : guard r ≡ true → Shrinks r (change r)

pub update_one-IsSound :
    (i : ℕ) (guard : CoachingSession → Bool) (change : CoachingSession → CoachingSession)
    (rows : Rows)
    → ((r : CoachingSession) → find_row i rows ≡ some r → Keeps guard change r)
    → IsSound rows
    → IsSound (update_one i guard change rows).1
unfolding update_one
update_one-IsSound i guard change rows k v = elim (Option-cases (find_row i rows)) [
  | inl e ↦ rw (e, update_one) v
  | inr (r, e) ↦
      rw (e, update_one)
        (elim (Bool-cases (guard r)) [
          | inl g ↦ rw g (
              put_row-IsSound i r (change r) rows e
                ((k r e).consistent (All-find_row IsConsistent i r rows v.consistent e) g)
                ((k r e).shrinks g) v)
          | inr g ↦ rw g v
        ])
]

-- A statement that the constraint can refuse leaves a sound table where it writes.
abbrev pub WriteSound : Write → Type 0
WriteSound (written r rows) = IsConsistent r × IsSound rows
WriteSound slot_conflict = Unit {0}
WriteSound rejected = Unit {0}
WriteSound no_row = Unit {0}

pub write_one-WriteSound :
    (i : ℕ) (guard : CoachingSession → Bool) (change : CoachingSession → CoachingSession)
    (rows : Rows)
    → ((r : CoachingSession)
        → find_row i rows ≡ some r
        → IsConsistent r
        → guard r ≡ true
        → IsConsistent (change r))
    → ((r : CoachingSession) → (change r).id ≡ r.id)
    → IsSound rows
    → WriteSound (write_one i guard change rows)
unfolding write_one
write_one-WriteSound i guard change rows k key v = elim (Option-cases (find_row i rows)) [
  | inl e ↦ rw (e, write_one) tt
  | inr (r, e) ↦
      rw (e, write_one)
        (elim (Bool-cases (guard r)) [
          | inr g ↦ rw g tt
          | inl g ↦ rw g (elim (Bool-cases (conflicts_in i (change r) rows)) [
            | inl clash ↦ rw clash tt
            | inr clear ↦
                let c = k r e (All-find_row IsConsistent i r rows v.consistent e) g in
                rw clear (
                  c,
                  record {
                    consistent = All-put_row IsConsistent i (change r) rows v.consistent c;
                    exclusive =
                        put_row-Exclusive i (change r) rows (key r ∙ find_row-id i r rows e)
                          (conflicts_in-Clear i (change r) rows clear) v.exclusive;
                  },
                )
          ])
        ])
]

pub insert_row-WriteSound :
    (r : CoachingSession) (rows : Rows)
    → (duration_allowed r.duration_minutes ≡ true → IsConsistent r)
    → IsSound rows
    → WriteSound (insert_row r rows)
unfolding insert_row
insert_row-WriteSound r rows c v = ground (
  arith,
  c,
  λ (f : is_some (find_row r.id rows) ≡ false) (n : conflicts_in r.id r rows ≡ false).
      insert-Exclusive r rows f n v.exclusive,
)

-- A sweep that keeps each row it changes consistent, and takes no slot.
module _ (guard : CoachingSession → Bool) (change : CoachingSession → CoachingSession)
    (shrinks : (r : CoachingSession) → guard r ≡ true → Shrinks r (change r)) where
  abbrev pub Improves : CoachingSession → Type 0
  Improves r = guard r ≡ true → IsConsistent r → IsConsistent (change r)

  update_all-All :
      (rows : Rows)
      → All Improves rows
      → All IsConsistent rows
      → All IsConsistent (update_all guard change rows)
  unfolding update_all
  update_all-All [] k h = tt
  update_all-All (r ∷ rs) k h = (
    elim (Bool-cases (guard r)) [ inl g ↦ rw g (k.0 g h.0) | inr g ↦ rw g h.0 ],
    update_all-All rs k.1 h.1,
  )

  pub update_all-IsSound :
      (rows : Rows) → All Improves rows → IsSound rows → IsSound (update_all guard change rows)
  update_all-IsSound rows k v = record {
    consistent = update_all-All rows k v.consistent;
    exclusive = update_all-Exclusive guard change shrinks rows v.exclusive;
  }
