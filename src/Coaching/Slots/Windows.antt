-- ===== src/Coaching/Slots/Windows.antt =====
-- What SetAvailability leaves in `coach_availability` (backend/internal/coaching/service.go).
use dating_coach.Base.{
  ℕ, ◌≡◌, refl, arith, Bool, true, not, inl, inr, Bool-cases, List, [], ◌∷◌, ◌++◌, ◌==◌, ◌+◌, ◌*◌,
  map, select, sort_by,
}
use dating_coach.Store.Rows.{AvailabilityRow}
use dating_coach.Coaching.World.{World, Env, Result, ok, err}
use dating_coach.Coaching.Slots

-- The windows, as the coach's own rows.
abbrev pub owned_by : ℕ → List AvailabilityRow → List AvailabilityRow
owned_by coach_id windows =
    map {A = AvailabilityRow} (λ a. record a { coach_id = coach_id }) windows

abbrev of_coach : ℕ → AvailabilityRow → Bool
of_coach i w = w.coach_id == i

select-owned_by :
    (i : ℕ) (ws : List AvailabilityRow) → select (of_coach i) (owned_by i ws) ≡ owned_by i ws
select-owned_by i [] = refl
select-owned_by i (w ∷ ws) = ground (arith, select-owned_by i ws)

-- The rows of every other coach.
abbrev pub others_of : ℕ → List AvailabilityRow → List AvailabilityRow
others_of i rows = select (λ a. not (a.coach_id == i)) rows

others_of-owned_by : (i : ℕ) (ws : List AvailabilityRow) → others_of i (owned_by i ws) ≡ []
others_of-owned_by i [] = refl
others_of-owned_by i (w ∷ ws) = ground (arith, others_of-owned_by i ws)

-- The rows after a replacement, as one coach sees them.
own_rows :
    (i : ℕ) (xs ws : List AvailabilityRow)
    → select (of_coach i) (select (λ a. not (a.coach_id == i)) xs ++ owned_by i ws) ≡ owned_by i ws
own_rows i [] ws = select-owned_by i ws
own_rows i (x ∷ xs) ws = ground (arith, own_rows i xs ws)

other_rows :
    (i : ℕ) (xs ws : List AvailabilityRow)
    → others_of i (others_of i xs ++ owned_by i ws) ≡ others_of i xs
other_rows i [] ws = others_of-owned_by i ws
other_rows i (x ∷ xs) ws = ground (arith, other_rows i xs ws)

-- What a call of SetAvailability did.
abbrev pub Replaced :
    ℕ → List AvailabilityRow → World → Result (List AvailabilityRow) × World → Type 0
Replaced i windows w (ok rows, w') =
    (rows ≡ sort_by (λ a. a.weekday * 1440 + a.start_minute) (owned_by i windows))
    × (rows ≡ Slots.list_availability i w'.db)
    × (Slots.all_valid windows ≡ true)
    × (others_of i w'.db.availability ≡ others_of i w.db.availability)
    × (w'.db.sessions ≡ w.db.sessions)
Replaced i windows w (err e, w') = w'.db ≡ w.db

-- SetAvailability either replaces the coach's week by exactly the given windows, all of them valid,
-- and reports them in order, without touching the week of any other coach or any session, or it
-- fails and leaves the database as it was.
pub set_availability-Replaced :
    (env : Env) (i : ℕ) (windows : List AvailabilityRow) (w : World)
    → Replaced i windows w (Slots.set_availability env i windows w)
unfolding Slots.set_availability Slots.list_availability
set_availability-Replaced env i windows w = elim (Bool-cases (Slots.all_valid windows)) [
  | inr n ↦ rw n refl
  | inl v ↦ elim (Bool-cases (Slots.is_referable i windows w.db.coaches)) [
    | inr n ↦ rw (v, n) refl
    | inl f ↦ elim (Bool-cases env.commits) [
      | inr n ↦ rw (v, f, n) refl
      | inl c ↦
          rw (v, f, c)
            (
              rw (own_rows i w.db.availability windows) refl,
              refl,
              v,
              other_rows i w.db.availability windows,
              refl,
            )
    ]
  ]
]
