-- ===== src/SlotTests.antt =====
-- Runs of OpenSlots over the zone and the sessions of the coaching tests.
use dating_coach.Base.{
  subst, sym, ◌-◌, ◌*◌, ◌/◌, ◌%◌, ◌≤◌, leb, ltb, if◌then◌else◌, ◌+◌, ◌≡◌, arith, suc, none, some,
  All,
}
use dating_coach.Coaching.Offers
use dating_coach.Coaching.Offers.Fit.{IsCalendar}
use dating_coach.Coaching.Offers.Kept.{Answers, IsBookable, open_slots-IsBookable}
use dating_coach.Coaching.Offers.Fuel.{HasDays, open_slots_loops_end, minutes_int32_lem}
use dating_coach.Coaching.World.{Zone}
use dating_coach.Store.Rows.{Time, hour, minute}
use dating_coach.Tests.{day, plain_zone, service, at, now, start, waiting_world}

plain_zone-IsCalendar : IsCalendar plain_zone
unfolding Offers.wall_minute
plain_zone-IsCalendar t m e = omega arith

open_slots-IsBookable_example :
    Answers
      (All (IsBookable service waiting_world.db 1 none (start + day)))
      (Offers.open_slots service (at now) 1 2 start (start + day) (some 60) none waiting_world)
open_slots-IsBookable_example =
    open_slots-IsBookable service (at now) 1 2 start (start + day) (some 60) none waiting_world
      (λ timezone. plain_zone-IsCalendar) (omega arith) (omega arith)

-- Summer time begins at two o'clock of day 100.
abbrev summer : Time
summer = 100 * day + 2 * hour

-- What the clocks show, and the instant that a shown time stands for; a time in the gap is read by the
-- offset before it.
abbrev shown : Time → Time
shown t = if leb summer t then t + hour else t

abbrev meant : Time → Time
meant x = if ltb x (summer + hour) then x else x - hour

abbrev summer_zone : Zone
summer_zone = record {
  civil = λ t. plain_zone.civil (shown t);
  date = λ d h m b. meant (plain_zone.date d h m b);
}

meant_step : (t k : Time) → 23 * hour ≤ k → t + k ≤ meant (shown t + k) + hour
meant_step t k h = ground (arith, h)

next_shown :
    (t : Time)
    → plain_zone.date (suc (t / day)) ((t / hour) % 24) ((t / minute) % 60) (t % minute) ≡ t + day
next_shown t = omega arith

begun_shown : (t x : Time) → shown t ≤ x + day → t ≤ meant x + 26 * hour
begun_shown t x h = ground (arith, h)

same_day : (t : Time) → t ≤ t / day * day + 0 + 0 + 0 + day
same_day t = omega arith

summer_zone-HasDays : HasDays summer_zone
summer_zone-HasDays = record {
  day_length = λ t.
      subst (λ x. t + 22 * hour ≤ meant x) (sym (next_shown (shown t)))
        (let h = meant_step t day (omega arith) in omega arith);
  day_begun = λ t. begun_shown t (shown t / day * day + 0 + 0 + 0) (same_day (shown t));
}

open_slots_loops_end_example :
    (Offers.days 40 summer_zone (start + day) (Offers.midnight summer_zone start)
      ≡ Offers.days Offers.day_fuel summer_zone (start + day) (Offers.midnight summer_zone start))
    × (Offers.minutes 2000 60 1020 540 ≡ Offers.minutes (suc 1020) 60 1020 540)
open_slots_loops_end_example =
    open_slots_loops_end summer_zone start (start + day) 40 2000 60 1020 540 summer_zone-HasDays
      (omega arith) (omega arith) (omega arith)

minutes_int32_lem_example : Offers.minutes_int32 49 240 1440 0 ≡ Offers.minutes 49 240 1440 0
minutes_int32_lem_example =
    minutes_int32_lem 49 240 1440 0 (omega arith) (omega arith) (omega arith)
