-- ===== src/Coaching/Slots.antt =====
-- The weekly availability of a coach and what may be booked in it: SetAvailability, ListAvailability,
-- overlapsBooked and assertBookable of backend/internal/coaching/service.go. A minute of
-- the day that is negative is refused before the model begins.
pub mod Windows
pub mod Bookable
use dating_coach.Base.{
  is_some, ℕ, ◌+◌, ◌-◌, ◌*◌, Bool, true, false, not, Option, none, some, List, [], ◌∷◌, ◌++◌,
  String, leb, ltb, ◌==◌, ◌&&◌, if◌then◌else◌, any, select, sort_by, map,
}
use dating_coach.Store.Rows.{
  CoachingSession, CoachRow, AvailabilityRow, ApprovalStatus, approval_pending, approval_approved,
  approval_rejected, Time, minute, session_end, ranges_overlap,
}
use dating_coach.Store.Table.{Rows}
use dating_coach.Store.Sweeps.{list_booked_slots}
use dating_coach.Coaching.Clock.{min_session_minutes, max_session_minutes}
use dating_coach.Coaching.World.{
  Db, Zone, Civil, Service, Env, not_found, internal, invalid_input, slot_taken, unavailable,
  Result, ok, err, Tx, find_coach, guard, transaction, ◌>>◌,
}

-- SetAvailability's check of one window.
unfoldable pub window_valid : AvailabilityRow → Bool
window_valid w = leb w.weekday 6 && ltb w.start_minute w.end_minute && leb w.end_minute 1440

abbrev pub all_valid : List AvailabilityRow → Bool
all_valid [] = true
all_valid (w ∷ ws) = window_valid w && all_valid ws

-- The coach's rows, in the order of `ORDER BY weekday, start_minute`.
unfoldable pub list_availability : ℕ → Db → List AvailabilityRow
list_availability coach_id db =
    sort_by (λ w. w.weekday * 1440 + w.start_minute)
      (select (λ w. w.coach_id == coach_id) db.availability)

abbrev pub is_referable : ℕ → List AvailabilityRow → List CoachRow → Bool
is_referable coach_id [] coaches = true
is_referable coach_id (w ∷ ws) coaches = is_some (find_coach coach_id coaches)

abbrev put_windows : ℕ → List AvailabilityRow → Tx (Unit {0})
put_windows coach_id windows w = (
  ok tt,
  record w {
    db = record (w.db) {
      availability =
          select (λ a. not (a.coach_id == coach_id)) w.db.availability
          ++ map {A = AvailabilityRow} (λ a. record a { coach_id = coach_id }) windows;
    };
  },
)

-- A window refers to its coach: the foreign key.
abbrev replace_windows : ℕ → List AvailabilityRow → Tx (Unit {0})
replace_windows coach_id windows = do
  λ w. guard (is_referable coach_id windows w.db.coaches) internal w
  put_windows coach_id windows

unfoldable pub set_availability : Env → ℕ → List AvailabilityRow → Tx (List AvailabilityRow)
set_availability env coach_id windows = do
  guard (all_valid windows) invalid_input
  transaction env (replace_windows coach_id windows)
  λ w. (ok (list_availability coach_id w.db), w)

abbrev pub is_excluded : Option ℕ → CoachingSession → Bool
is_excluded none b = false
is_excluded (some i) b = b.id == i

abbrev pub collides : Time → Time → Option ℕ → CoachingSession → Bool
collides start end_time exclude b =
    not (is_excluded exclude b)
    && ranges_overlap start end_time b.scheduled_time
        (session_end b.scheduled_time b.duration_minutes)

unfoldable pub overlaps_booked : Time → ℕ → Rows → Option ℕ → Bool
overlaps_booked start duration booked exclude =
    any (collides start (session_end start duration) exclude) booked

abbrev pub zone_of : Service → String → Zone
zone_of svc timezone = elim (svc.load_location timezone) [ none ↦ svc.utc | some z ↦ z ]

-- The requested interval lies in one window of the coach's week.
unfoldable pub inside_window : Civil → ℕ → AvailabilityRow → Bool
inside_window local duration w =
    let start_minute = local.hour * 60 + local.minute in
    w.weekday == local.weekday
    && leb w.start_minute start_minute
    && leb (start_minute + duration) w.end_minute

abbrev pub is_approved : ApprovalStatus → Bool
is_approved approval_approved = true
is_approved approval_pending = false
is_approved approval_rejected = false

-- Sessions that may reach into the interval: no stored session is longer than the look-back.
unfoldable pub booked_near : Db → ℕ → Time → ℕ → Rows
booked_near db coach_id start duration =
    list_booked_slots coach_id (start - max_session_minutes * minute) (session_end start duration)
      db.sessions

unfoldable pub fits_calendar : Service → Db → CoachRow → Time → ℕ → Option ℕ → Result (Unit {0})
fits_calendar svc db coach start duration exclude =
    let local = (zone_of svc coach.timezone).civil start in
    if any (inside_window local duration) (list_availability coach.user_id db)
    then (if overlaps_booked start duration (booked_near db coach.user_id start duration) exclude
        then err slot_taken
        else ok tt)
    else err unavailable

unfoldable pub assert_bookable : Service → Db → ℕ → Time → ℕ → Bool → Option ℕ → Result (Unit {0})
assert_bookable svc db coach_id start duration require_accepting exclude =
    if leb min_session_minutes duration && leb duration max_session_minutes
    then (elim (find_coach coach_id db.coaches) [
      | none ↦ err not_found
      | some coach ↦
          if is_approved coach.approval_status
          then (if require_accepting && not coach.accepting_clients
              then err unavailable
              else fits_calendar svc db coach start duration exclude)
          else err unavailable
    ])
    else err invalid_input

unfoldable pub check_bookable : Service → ℕ → Time → ℕ → Bool → Option ℕ → Tx (Unit {0})
check_bookable svc coach_id start duration require_accepting exclude w =
    (assert_bookable svc w.db coach_id start duration require_accepting exclude, w)
