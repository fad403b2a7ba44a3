-- ===== src/Coaching/Offers/Fuel.antt =====
-- The loops of OpenSlots end before their fuel does (backend/internal/coaching/service.go).
use dating_coach.Base.{
  ℕ, zero, suc, ◌+◌, ◌-◌, ◌*◌, ◌≤◌, ◌<◌, ◌≡◌, refl, arith, true, false, leb, ◌%◌, Bool-cases, inl,
  inr,
}
use dating_coach.Store.Rows.{Time, hour}
use dating_coach.Coaching.World.{Zone}
use dating_coach.Coaching.Offers

-- The clock of the next day is at least 22 hours away, and no day has begun more than 26 hours ago:
-- a zone changes its offset by at most two hours at a time.
pub record HasDays (zone : Zone) : Type 0 where
  pub day_length : (t : Time) → t + 22 * hour ≤ Offers.next_day zone t
  pub day_begun : (t : Time) → t ≤ Offers.midnight zone t + 26 * hour

days_enough :
    (fuel n : ℕ) (zone : Zone) (to day : Time)
    → HasDays zone
    → fuel ≤ n
    → to < day + fuel * (22 * hour)
    → Offers.days n zone to day ≡ Offers.days fuel zone to day
unfolding Offers.days
days_enough zero zero zone to day h k l = refl
days_enough zero (suc n) zone to day h k l =
    let e : leb day to ≡ false = ground (arith, l) in rw e refl
days_enough (suc fuel) zero zone to day h k l = ground (arith, k)
days_enough (suc fuel) (suc n) zone to day h k l =
    let d = h.day_length day in
    rw (days_enough fuel n zone to (Offers.next_day zone day) h (omega arith) (omega arith)) refl

minutes_enough :
    (fuel n duration end_minute m : ℕ)
    → fuel ≤ n
    → end_minute < m + fuel * 30
    → Offers.minutes n duration end_minute m ≡ Offers.minutes fuel duration end_minute m
unfolding Offers.minutes
minutes_enough zero zero duration end_minute m k l = refl
minutes_enough zero (suc n) duration end_minute m k l =
    let e : leb (m + duration) end_minute ≡ false = ground (arith, l) in rw e refl
minutes_enough (suc fuel) zero duration end_minute m k l = ground (arith, k)
minutes_enough (suc fuel) (suc n) duration end_minute m k l =
    rw (minutes_enough fuel n duration end_minute (m + 30) (omega arith) (omega arith)) refl

-- The loops of OpenSlots end by their own conditions: over a range of at most 30 times 24 hours, the
-- fuel of 34 passes sees every day, and as many passes as the end of a window has minutes, and one, see
-- every start in it, so that more fuel changes nothing. In the coach's zone the same clock on the next
-- day is at least 22 hours away, and a day began at most 26 hours ago, as is the case where the offset
-- changes by at most two hours.
pub open_slots_loops_end :
    (zone : Zone) (from to : Time) (n k duration end_minute m : ℕ)
    → HasDays zone
    → to - from ≤ 30 * 24 * hour
    → Offers.day_fuel ≤ n
    → suc end_minute ≤ k
    → (Offers.days n zone to (Offers.midnight zone from)
        ≡ Offers.days Offers.day_fuel zone to (Offers.midnight zone from))
      × (Offers.minutes k duration end_minute m
          ≡ Offers.minutes (suc end_minute) duration end_minute m)
open_slots_loops_end zone from to n k duration end_minute m h l a b =
    let d = h.day_begun from in
    (
      days_enough 34 n zone to (Offers.midnight zone from) h a (omega arith),
      minutes_enough (suc end_minute) k duration end_minute m b (omega arith),
    )

-- The int32 loop over the starts of a window never wraps around, and sees the same starts as the loop
-- over unbounded numbers: the duration is at most 240, as the handler caps it, the window ends by 1440,
-- as the table's check says, and the first start is at most one step later.
pub minutes_int32_lem :
    (fuel duration end_minute m : ℕ)
    → duration ≤ 240
    → end_minute ≤ 1440
    → m ≤ 1470
    → Offers.minutes_int32 fuel duration end_minute m ≡ Offers.minutes fuel duration end_minute m
unfolding Offers.minutes_int32 Offers.minutes
minutes_int32_lem zero duration end_minute m d e k = refl
minutes_int32_lem (suc fuel) duration end_minute m d e k =
    let sum : (m + duration) % 4294967296 ≡ m + duration = omega arith in
    let next : (m + 30) % 4294967296 ≡ m + 30 = omega arith in
    let left : (m + duration + 2147483648) % 4294967296 ≡ m + duration + 2147483648 = omega arith in
    let right : (end_minute + 2147483648) % 4294967296 ≡ end_minute + 2147483648 = omega arith in
    elim (Bool-cases (leb (m + duration) end_minute)) [
      | inl t ↦
          let s : leb (m + duration + 2147483648) (end_minute + 2147483648) ≡ true =
            ground (arith, t) in
          let ih = minutes_int32_lem fuel duration end_minute (m + 30) d e (ground (arith, t)) in
          simp (sum, next, left, right, s, t, ih) refl
      | inr t ↦
          let s : leb (m + duration + 2147483648) (end_minute + 2147483648) ≡ false =
            ground (arith, t) in
          simp (sum, left, right, s, t) refl
    ]
