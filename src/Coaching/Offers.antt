-- ===== src/Coaching/Offers.antt =====
-- OpenSlots and wallMinute of backend/internal/coaching/service.go: the weekly availability expanded
-- into slots. `duration` is none for a value that is not positive.
pub mod Fit
pub mod Kept
pub mod Fuel
use dating_coach.Base.{
  ℕ, zero, suc, ◌+◌, ◌-◌, ◌*◌, ◌/◌, ◌%◌, Bool, true, false, not, Option, none, some, List, [], ◌∷◌,
  ◌++◌, ◌==◌, ◌&&◌, ltb, leb, if◌then◌else◌, select, map,
}
use dating_coach.Store.Rows.{CoachRow, AvailabilityRow, Time, minute, hour}
use dating_coach.Store.Table.{Rows}
use dating_coach.Store.Sweeps.{list_booked_slots}
use dating_coach.Coaching.Clock.{default_session_minutes, max_session_minutes, min_checkout_window}
use dating_coach.Coaching.Slots.{list_availability, overlaps_booked, zone_of, is_approved}
use dating_coach.Coaching.World.{
  Db, Zone, Service, Env, World, Tx, not_found, invalid_input, guard, required, pure, participant,
  find_coach, ◌>>=◌, ◌>>◌,
}

abbrev pub slot_step_minutes : ℕ
slot_step_minutes = 30

abbrev pub max_availability_days : ℕ
max_availability_days = 30

pub record Slot : Type 0 where
  pub start : Time
  pub duration_minutes : ℕ

unfoldable pub wall_minute : Zone → Time → ℕ
wall_minute zone t = (zone.civil t).hour * 60 + (zone.civil t).minute

abbrev pub midnight : Zone → Time → Time
midnight zone t = zone.date (zone.civil t).day 0 0 0

-- AddDate(0, 0, 1) keeps the wall clock.
abbrev pub next_day : Zone → Time → Time
next_day zone t =
    zone.date (suc (zone.civil t).day) (zone.civil t).hour (zone.civil t).minute
      (zone.civil t).below

-- The days from the first to the one that is after `to`.
unfoldable pub days : ℕ → Zone → Time → Time → List Time
days zero zone to day = []
days (suc fuel) zone to day =
    let rest = days fuel zone to (next_day zone day) in if leb day to then day ∷ rest else []

-- The minutes of one window, a step apart. The source adds int32: minutes_int32 wraps as it does, and
-- is the same loop for what the handler and the table let in.
unfoldable pub minutes : ℕ → ℕ → ℕ → ℕ → List ℕ
minutes zero duration end_minute m = []
minutes (suc fuel) duration end_minute m =
    let rest = minutes fuel duration end_minute (m + slot_step_minutes) in
    if leb (m + duration) end_minute then m ∷ rest else []

-- An int32 is a number modulo 2 ^ 32; negative ones are the upper half.
abbrev signed_le : ℕ → ℕ → Bool
signed_le a b = leb ((a + 2147483648) % 4294967296) ((b + 2147483648) % 4294967296)

unfoldable pub minutes_int32 : ℕ → ℕ → ℕ → ℕ → List ℕ
minutes_int32 zero duration end_minute m = []
minutes_int32 (suc fuel) duration end_minute m =
    let rest = minutes_int32 fuel duration end_minute ((m + slot_step_minutes) % 4294967296) in
    if signed_le ((m + duration) % 4294967296) end_minute then m ∷ rest else []

-- What the loops of OpenSlots read.
pub record Search : Type 0 where
  pub zone : Zone
  pub from : Time
  pub to : Time
  pub duration : ℕ
  pub booked : Rows
  pub exclude : Option ℕ

abbrev pub start_of : Search → Time → ℕ → Time
start_of q day m = q.zone.date (q.zone.civil day).day (m / 60) (m % 60) 0

-- A minute that does not exist on the day, lies out of range or is taken is passed over.
unfoldable pub is_open : Search → ℕ → Time → Bool
is_open q m start =
    wall_minute q.zone start == m
    && leb q.from start
    && ltb start q.to
    && not (overlaps_booked start q.duration q.booked q.exclude)

unfoldable pub offers_at : Search → Time → List ℕ → List Slot
offers_at q day [] = []
offers_at q day (m ∷ ms) =
    let rest = offers_at q day ms in
    if is_open q m (start_of q day m)
    then record { start = start_of q day m; duration_minutes = q.duration } ∷ rest
    else rest

unfoldable pub offers_in : Search → Time → List AvailabilityRow → List Slot
offers_in q day [] = []
offers_in q day (w ∷ ws) =
    let rest = offers_in q day ws in
    if w.weekday == (q.zone.civil day).weekday
    then offers_at q day (minutes (suc w.end_minute) q.duration w.end_minute w.start_minute) ++ rest
    else rest

unfoldable pub offers : Search → List AvailabilityRow → List Time → List Slot
offers q windows [] = []
offers q windows (day ∷ ds) = offers_in q day windows ++ offers q windows ds

abbrev pub check_excluded : ℕ → ℕ → Option ℕ → Tx (Unit {0})
check_excluded coach_id actor_id none = pure tt
check_excluded coach_id actor_id (some i) = do
  session ← participant i actor_id
  guard (session.coach_id == coach_id) invalid_input

abbrev pub or_default : Option ℕ → ℕ
or_default none = default_session_minutes
or_default (some d) = d

abbrev later_of : Time → Time → Time
later_of a b = if ltb a b then b else a

-- A paid booking needs time for its checkout; a move takes no payment.
abbrev pub earliest_start : Service → Env → Option ℕ → Time → Time
earliest_start svc env none from =
    if svc.payments.enabled then later_of from (env.now + min_checkout_window) else from
earliest_start svc env (some i) from = from

unfoldable pub search_of : Service → Env → Db → CoachRow → Time → Time → ℕ → Option ℕ → Search
search_of svc env db coach from to duration exclude = record {
  zone = zone_of svc coach.timezone;
  from = earliest_start svc env exclude from;
  to = to;
  duration = duration;
  booked = list_booked_slots coach.user_id (from - max_session_minutes * minute) to db.sessions;
  exclude = exclude;
}

-- The range has at most `max_availability_days` times 24 hours, and no day is shorter than 22 hours.
abbrev pub day_fuel : ℕ
day_fuel = 34

abbrev pub all_offers : Search → List AvailabilityRow → List Slot
all_offers q windows = offers q windows (days day_fuel q.zone q.to (midnight q.zone q.from))

abbrev pub offered_by : Service → Env → CoachRow → Time → Time → ℕ → Option ℕ → Tx (List Slot)
offered_by svc env coach from to duration exclude w =
    if is_approved coach.approval_status
    then pure
        (all_offers (search_of svc env w.db coach from to duration exclude)
          (list_availability coach.user_id w.db))
        w
    else pure [] w

unfoldable pub open_slots :
    Service → Env → ℕ → ℕ → Time → Time → Option ℕ → Option ℕ → Tx (List Slot)
open_slots svc env coach_id actor_id from to duration exclude = do
  check_excluded coach_id actor_id exclude
  guard (ltb from to) invalid_input
  guard (leb (to - from) (max_availability_days * 24 * hour)) invalid_input
  coach ← λ w. required (find_coach coach_id w.db.coaches) not_found w
  offered_by svc env coach from to (or_default duration) exclude
