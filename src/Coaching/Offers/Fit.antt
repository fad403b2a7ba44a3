-- ===== src/Coaching/Offers/Fit.antt =====
-- A slot that OpenSlots offers fits the calendar that assertBookable checks
-- (backend/internal/coaching/service.go).
use dating_coach.Base.{
  leb→le, ℕ, zero, suc, ◌+◌, ◌/◌, ◌%◌, ◌≤◌, ◌<◌, ◌≡◌, refl, arith, Bool, true, false, List, [], ◌∷◌,
  ◌==◌, leb, any, All, All-map, All-append, Bool-cases, inl, inr, each_is_found,
}
use dating_coach.Store.Rows.{AvailabilityRow, Time}
use dating_coach.Coaching.Slots
use dating_coach.Coaching.World.{Zone}
use dating_coach.Coaching.Offers

-- A time made from the date of another one that shows the wall clock asked for falls on the same
-- weekday (time.Date and Weekday).
abbrev pub IsCalendar : Zone → Type 0
IsCalendar zone =
    (t : Time) (m : ℕ)
    → Offers.wall_minute zone (zone.date (zone.civil t).day (m / 60) (m % 60) 0) ≡ m
    → (zone.civil (zone.date (zone.civil t).day (m / 60) (m % 60) 0)).weekday
      ≡ (zone.civil t).weekday

-- What an offer guarantees of its start.
pub record IsOffered (q : Offers.Search) (windows : List AvailabilityRow) (slot : Offers.Slot)
    : Type 0 where
  pub asked : slot.duration_minutes ≡ q.duration
  pub from_on : q.from ≤ slot.start
  pub before_to : slot.start < q.to
  pub free : Slots.overlaps_booked slot.start q.duration q.booked q.exclude ≡ false
  pub published : any (Slots.inside_window (q.zone.civil slot.start) q.duration) windows ≡ true

le_of_step : (m k : ℕ) → m + 30 ≤ k → m ≤ k
le_of_step m k h = omega arith

minutes_fit :
    (fuel duration end_minute m : ℕ)
    → All (λ k. k + duration ≤ end_minute × m ≤ k) (Offers.minutes fuel duration end_minute m)
unfolding Offers.minutes
minutes_fit zero duration end_minute m = tt
minutes_fit (suc fuel) duration end_minute m =
    let rest =
      All-map (λ k h. (h.0, le_of_step m k h.1)) (Offers.minutes fuel duration end_minute (m + 30))
        (minutes_fit fuel duration end_minute (m + 30)) in
    elim (Bool-cases (leb (m + duration) end_minute)) [
      | inr n ↦ rw n tt
      | inl n ↦ rw n ((leb→le (m + duration) end_minute n, omega arith), rest)
    ]

-- The window that a start was taken from holds it.
start_inside :
    (q : Offers.Search) (day : Time) (m : ℕ) (w : AvailabilityRow)
    → IsCalendar q.zone
    → w.weekday == (q.zone.civil day).weekday ≡ true
    → Offers.wall_minute q.zone (Offers.start_of q day m) ≡ m
    → m + q.duration ≤ w.end_minute
    → w.start_minute ≤ m
    → Slots.inside_window (q.zone.civil (Offers.start_of q day m)) q.duration w ≡ true
unfolding Slots.inside_window Offers.wall_minute
start_inside q day m w c d e l k =
    let v = c day m e in
    let x : w.weekday == (q.zone.civil (Offers.start_of q day m)).weekday ≡ true = rw v d in
    ground (arith, x, e, l, k)

opened-IsOffered :
    (q : Offers.Search) (windows : List AvailabilityRow) (day : Time) (m : ℕ) (w : AvailabilityRow)
    → IsCalendar q.zone
    → ((p : AvailabilityRow → Bool) → p w ≡ true → any p windows ≡ true)
    → w.weekday == (q.zone.civil day).weekday ≡ true
    → (m + q.duration ≤ w.end_minute) × (w.start_minute ≤ m)
    → Offers.is_open q m (Offers.start_of q day m) ≡ true
    → IsOffered q windows
        (record { start = Offers.start_of q day m; duration_minutes = q.duration })
unfolding Offers.is_open
opened-IsOffered q windows day m w c f d (l, k) o =
    let e : Offers.wall_minute q.zone (Offers.start_of q day m) ≡ m = ground (arith, o) in
    record {
      asked = refl;
      from_on = ground (arith, o);
      before_to = ground (arith, o);
      free = ground (arith, o);
      published =
          f (Slots.inside_window (q.zone.civil (Offers.start_of q day m)) q.duration)
            (start_inside q day m w c d e l k);
    }

offers_at-IsOffered :
    (q : Offers.Search) (windows : List AvailabilityRow) (day : Time) (w : AvailabilityRow)
    (ms : List ℕ)
    → IsCalendar q.zone
    → ((p : AvailabilityRow → Bool) → p w ≡ true → any p windows ≡ true)
    → w.weekday == (q.zone.civil day).weekday ≡ true
    → All (λ k. k + q.duration ≤ w.end_minute × w.start_minute ≤ k) ms
    → All (IsOffered q windows) (Offers.offers_at q day ms)
unfolding Offers.offers_at Offers.is_open
offers_at-IsOffered q windows day w [] c f d h = tt
offers_at-IsOffered q windows day w (m ∷ ms) c f d h =
    let rest = offers_at-IsOffered q windows day w ms c f d h.1 in
    elim (Bool-cases (Offers.is_open q m (Offers.start_of q day m))) [
      | inr n ↦ rw n rest
      | inl n ↦ rw n (opened-IsOffered q windows day m w c f d h.0 n, rest)
    ]

offers_in-IsOffered :
    (q : Offers.Search) (windows ws : List AvailabilityRow) (day : Time)
    → IsCalendar q.zone
    → All (λ w. (p : AvailabilityRow → Bool) → p w ≡ true → any p windows ≡ true) ws
    → All (IsOffered q windows) (Offers.offers_in q day ws)
unfolding Offers.offers_in
offers_in-IsOffered q windows [] day c f = tt
offers_in-IsOffered q windows (w ∷ ws) day c f =
    let rest = offers_in-IsOffered q windows ws day c f.1 in
    elim (Bool-cases (w.weekday == (q.zone.civil day).weekday)) [
      | inr n ↦ rw n rest
      | inl n ↦
          let ms = Offers.minutes (suc w.end_minute) q.duration w.end_minute w.start_minute in
          let fit = minutes_fit (suc w.end_minute) q.duration w.end_minute w.start_minute in
          rw n (
            All-append (IsOffered q windows) (Offers.offers_at q day ms) (Offers.offers_in q day ws)
              (offers_at-IsOffered q windows day w ms c f.0 n fit) rest)
    ]

pub offers-IsOffered :
    (q : Offers.Search) (windows : List AvailabilityRow) (ds : List Time)
    → IsCalendar q.zone
    → All (IsOffered q windows) (Offers.offers q windows ds)
unfolding Offers.offers
offers-IsOffered q windows [] c = tt
offers-IsOffered q windows (day ∷ ds) c =
    All-append (IsOffered q windows) (Offers.offers_in q day windows) (Offers.offers q windows ds)
      (offers_in-IsOffered q windows windows day c (each_is_found windows))
      (offers-IsOffered q windows ds c)
