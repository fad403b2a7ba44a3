-- ===== src/Tests.antt =====
-- Concrete runs of the coaching service: one coach, one client, and a table of sessions.
use dating_coach.Coaching.Changes.Transition.{set_status-MovedTo, MovedTo}
use dating_coach.Coaching.Expiry.Batch.{due_rows}
use dating_coach.Coaching.Expiry.{expire_pending-Swept, Swept}
use dating_coach.Coaching.Access.{client_is_no_coach, stranger_is_refused}
use dating_coach.Store.Inserts.{insert_row, created_row, create_coaching_session}
use dating_coach.Coaching.Booking.Token.{Emailed, token_opens_booking}
use dating_coach.Store.Sweeps.{overdue, booked_between, list_booked_slots}
use dating_coach.Coaching.Slots.Windows.{set_availability-Replaced, Replaced}
use dating_coach.Coaching.Slots.Bookable.{assert_bookable_iff, Bookable}
use dating_coach.Coaching.Slots.{check_bookable}
use dating_coach.Coaching.Payment.Redelivery.{redelivery_changes_nothing}
use dating_coach.Coaching.Payment.{event_authorized}
use dating_coach.Coaching.Clock.Bounds.{respond_deadline_bounds, price_cents_bounds}
use dating_coach.Coaching.Changes.Moves.{reschedule_from-Moved, Moved}
use dating_coach.Coaching.Booking.{notify_requested}
use dating_coach.Coaching.Atomic.{answers, failure_rolls_back, attempt}
use dating_coach.Store.Payments.{
  find_payment_ref, authorize_session, mark_session_captured, paid_row,
}
use dating_coach.Store.Updates.{
  status_row, update_session_status, moved_row, write_one, reschedule_session, confirmed_row,
  confirm_session, answerable,
}
use dating_coach.Coaching.Answers.Answered.{Attempt, attempts}
use dating_coach.Coaching.Answers.Once.{respond_once}
use dating_coach.Store.Table.{conflicts_in, update_one, put_row, find_row}
use dating_coach.Coaching.History.{responds, books_free, here, next, Reach-IsSound}
use dating_coach.Coaching.Answers.Charge.{confirm_charges_once, Charged}
use dating_coach.Coaching.Answers.{decline, confirm}
use dating_coach.Base.{
  length, ◌⊎◌, ◌+◌, ◌*◌, ◌/◌, ◌%◌, ◌≡◌, ◌≢◌, refl, arith, true, false, none, some, List, [], ◌∷◌,
  ◌↔◌, ◌≤◌, ◌<◌,
}
use dating_coach.Store.Status.{
  releasing, completed, not_required, awaiting, pending_payment, pending, scheduled, cancelled,
  authorized, paid,
}
use dating_coach.Store.Rows.{
  CoachingSession, CoachRow, UserRow, AvailabilityRow, Time, minute, hour, approval_approved,
}
use dating_coach.Coaching.World.{
  participant, forbidden, err, payment_failed, find_user, find_coach, World, Env, Service, Provider,
  Zone, ok,
}
use dating_coach.Coaching.Answers
use dating_coach.Coaching.Booking
use dating_coach.Coaching.Lifecycle.{IsConsistent}
use dating_coach.Coaching.Slots
use dating_coach.Coaching.Sweep
use dating_coach.Store.Payments.{authorized_row}
use dating_coach.Coaching.Changes
use dating_coach.Coaching.Payment
use dating_coach.Coaching.Clock.{
  respond_deadline, price_cents, respond_window, respond_lead_time, max_int32,
}
use dating_coach.Coaching.Sound.{IsSound}

abbrev pub day : Time
day = 24 * hour

-- A zone without an offset; day 0 is a Thursday.
abbrev pub plain_zone : Zone
plain_zone = record {
  civil = λ t. record {
    day = t / day;
    weekday = (t / day + 4) % 7;
    hour = (t / hour) % 24;
    minute = (t / minute) % 60;
    below = t % minute;
  };
  date = λ d h m b. d * day + h * hour + m * minute + b;
}

-- A provider that grants everything.
abbrev generous : Provider
generous = record {
  enabled = true;
  create_checkout = λ calls input. some (record { ref = "cs_1"; url = "https://pay.example/1" });
  expire_checkout = λ calls ref. true;
  capture = λ calls ref id. true;
  release = λ calls ref id. true;
  refund = λ calls ref id. true;
}

abbrev pub service : Service
service = record {
  hash_token = λ token. token;
  load_location = λ name. none;
  utc = plain_zone;
  payments = generous;
  hold_ttl = 31 * minute;
}

abbrev pub at : Time → Env
at now = record {
  now = now;
  db_now = now;
  random_token = some "t0ken";
  new_id = 7;
  held = λ i. false;
  commits = true;
}

abbrev pub now : Time
now = 100 * day

abbrev pub start : Time
start = 102 * day + 10 * hour

abbrev pub coach : CoachRow
coach = record {
  user_id = 1;
  display_name = "Ada";
  email = "ada@example.com";
  hourly_rate_cents = 9000;
  timezone = "UTC";
  accepting_clients = true;
  approval_status = approval_approved;
}

abbrev pub client : UserRow
client = record { id = 2; email = "bo@example.com"; display_name = "Bo"; deleted_at = none }

-- A paid request that waits for the coach.
abbrev pub waiting : CoachingSession
waiting = record {
  id = 5;
  user_id = 2;
  coach_id = 1;
  scheduled_time = start;
  duration_minutes = 60;
  status = pending;
  topic = "";
  coach_notes = "";
  created_at = now;
  updated_at = now;
  confirmation_token = some "t0ken";
  respond_by = some (now + day);
  confirmed_at = none;
  calendar_sequence = 0;
  payment_status = authorized;
  amount_cents = 9000;
  currency = "usd";
  payment_ref = some "cs_1";
  hold_expires_at = none;
  meeting_url = "";
}

abbrev window : AvailabilityRow
window = record { coach_id = 1; weekday = 1; start_minute = 540; end_minute = 1020 }

abbrev all_week : List AvailabilityRow
all_week = record window { weekday = 0 } ∷ window ∷ []

abbrev empty_world : World
empty_world = record {
  db = record {
    sessions = [];
    coaches = coach ∷ [];
    users = client ∷ [];
    availability = window ∷ record window { weekday = 0 } ∷ [];
    payment_events = [];
    outbox = [];
  };
  calls = [];
}

abbrev pub waiting_world : World
waiting_world = record empty_world { db = record (empty_world.db) { sessions = waiting ∷ [] } }

waiting-IsConsistent : IsConsistent waiting
waiting-IsConsistent = record {
  payment_fits = refl;
  ref_known = λ h. refl;
  token_known = λ h. refl;
  deadline_known = λ h. refl;
  duration_fits = refl;
  hold_known = λ h. cc;
}

abbrev request : Booking.Request
request = record { user_id = 2; coach_id = 1; start = start; duration = 45; topic = "dates" }

empty-IsSound : IsSound empty_world.db.sessions
empty-IsSound = record { consistent = tt; exclusive = tt }

-- A free booking is stored, and the coach confirms it an hour later.
abbrev booked_world : World
booked_world = (Booking.book_free service (at now) request empty_world).1

abbrev confirmed_world : World
confirmed_world =
    (Answers.respond service (at (now + hour)) (record waiting { id = 7 }) confirm booked_world).1

Reach-IsSound_example : IsSound confirmed_world.db.sessions
Reach-IsSound_example =
    Reach-IsSound service empty_world confirmed_world
      (next (next here (books_free (at now) request))
        (responds (at (now + hour)) (record waiting { id = 7 }) confirm))
      empty-IsSound

assert_bookable_iff_example :
    (Slots.assert_bookable service waiting_world.db 1 (start + 2 * hour) 60 true none ≡ ok tt)
    ↔ Bookable service waiting_world.db 1 (start + 2 * hour) 60 true none
assert_bookable_iff_example =
    assert_bookable_iff service waiting_world.db 1 (start + 2 * hour) 60 true none
      (waiting-IsConsistent, tt)

-- The coach confirms the paid request, and the card is charged.
abbrev accepted : CoachingSession
accepted = record waiting {
  status = scheduled;
  confirmation_token = none;
  respond_by = none;
  confirmed_at = some (now + hour);
  calendar_sequence = 1;
  payment_status = paid;
  updated_at = now + hour;
}

abbrev accepted_world : World
accepted_world = (Answers.respond service (at (now + hour)) waiting confirm waiting_world).1

accepts :
    Answers.respond service (at (now + hour)) waiting confirm waiting_world
    ≡ (ok accepted, accepted_world)
unfolding Answers.respond Answers.answer Answers.answer_statement Answers.settle_payment
    Answers.capture Answers.notify_answer find_row put_row update_one answerable confirm_session
    confirmed_row paid_row mark_session_captured find_coach find_user
accepts = refl

abbrev confirm_again : Attempt
confirm_again = record { env = at (now + hour + minute); session = waiting; action = confirm }

respond_once_example :
    (Answers.respond service
      (at (now + 2 * hour))
      waiting
      decline
      (attempts service (confirm_again ∷ []) accepted_world)).0
    ≢ ok waiting
respond_once_example =
    respond_once service (at (now + hour)) (at (now + 2 * hour)) waiting waiting confirm decline
      (confirm_again ∷ []) waiting_world accepted_world accepted waiting accepts refl

confirm_charges_once_example : Charged 5 waiting_world accepted_world
confirm_charges_once_example =
    confirm_charges_once service (at (now + hour)) waiting accepted waiting_world accepted_world
      accepts

-- A refused card leaves the request as it was.
abbrev refusing : Service
refusing = record service { payments = record generous { capture = λ calls ref id. false } }

abbrev refused_world : World
refused_world = (attempt refusing (at (now + hour)) (answers waiting confirm) waiting_world).1

refuses :
    attempt refusing (at (now + hour)) (answers waiting confirm) waiting_world
    ≡ (some payment_failed, refused_world)
unfolding Answers.respond Answers.answer Answers.answer_statement Answers.settle_payment
    Answers.capture find_row put_row update_one answerable confirm_session confirmed_row
refuses = refl

failure_rolls_back_example : refused_world.db ≡ waiting_world.db
failure_rolls_back_example =
    failure_rolls_back refusing (at (now + hour)) (answers waiting confirm) waiting_world
      refused_world payment_failed refuses

-- The card of a hold is authorised, and the webhook arrives twice.
abbrev held_session : CoachingSession
held_session = record waiting {
  status = pending_payment;
  payment_status = awaiting;
  confirmation_token = none;
  respond_by = none;
  hold_expires_at = some (now + 31 * minute);
}

abbrev held_world : World
held_world = record empty_world { db = record (empty_world.db) { sessions = held_session ∷ [] } }

abbrev authorised : Payment.Event
authorised = record { id = "evt_1"; kind = event_authorized; checkout_ref = "cs_1" }

abbrev asked_world : World
asked_world = (Payment.apply_payment_event service (at (now + minute)) authorised held_world).1

delivered :
    Payment.apply_payment_event service (at (now + minute)) authorised held_world
    ≡ (ok tt, asked_world)
unfolding Payment.apply_payment_event Payment.apply_event Payment.event_recorded
    Payment.record_event Payment.on_authorized Payment.authorize Payment.ask_coach notify_requested
    authorize_session authorized_row update_one find_row put_row find_payment_ref find_coach
    find_user
delivered = refl

redelivery_changes_nothing_example :
    (Payment.apply_payment_event service (at (now + hour)) authorised asked_world).1 ≡ asked_world
redelivery_changes_nothing_example =
    redelivery_changes_nothing service (at (now + minute)) (at (now + hour)) authorised held_world
      asked_world asked_world delivered (λ i h. h)

-- The coach moves the request by three hours.
abbrev later : CoachingSession
later = record waiting {
  scheduled_time = start + 3 * hour;
  calendar_sequence = 1;
  updated_at = now + hour;
}

abbrev later_world : World
later_world =
    (Changes.reschedule_from service (at (now + hour)) waiting 1 (start + 3 * hour) waiting_world).1

moves_later :
    Changes.reschedule_from service (at (now + hour)) waiting 1 (start + 3 * hour) waiting_world
    ≡ (ok later, later_world)
unfolding Changes.reschedule_from Changes.move_session Changes.move_params Changes.notify_moved
    check_bookable Slots.assert_bookable Slots.fits_calendar Slots.list_availability
    Slots.inside_window Slots.overlaps_booked Slots.booked_near list_booked_slots booked_between
    reschedule_session write_one moved_row conflicts_in find_row put_row find_coach find_user
moves_later = refl

reschedule_from-Moved_example :
    Moved service (at (now + hour)) waiting true (start + 3 * hour) waiting_world later_world
reschedule_from-Moved_example =
    reschedule_from-Moved service (at (now + hour)) waiting later 1 (start + 3 * hour) waiting_world
      later_world moves_later

set_availability-Replaced_example :
    Replaced 1 all_week waiting_world (Slots.set_availability (at now) 1 all_week waiting_world)
set_availability-Replaced_example = set_availability-Replaced (at now) 1 all_week waiting_world

respond_deadline_bounds_example :
    (now ≤ respond_deadline now start)
    × (respond_deadline now start ≤ start)
    × (respond_deadline now start ≤ now + respond_window)
    × ((respond_deadline now start + respond_lead_time ≤ start) ⊎ (start < now + respond_lead_time))
respond_deadline_bounds_example = respond_deadline_bounds now start (omega arith)

price_cents_bounds_example :
    (60 * price_cents 9000 50 ≤ 9000 * 50 + 30)
    × (9000 * 50 < 60 * price_cents 9000 50 + 30)
    × (price_cents 9000 50 ≤ max_int32)
price_cents_bounds_example = price_cents_bounds 9000 50 (omega arith) (omega arith)

-- A stranger, and the client, at a session that is scheduled.
stranger_is_refused_example :
    (Answers.respond_as_coach service (at now) 5 9 confirm waiting_world
      ≡ (err forbidden, waiting_world))
    × (Changes.set_status 1 (at now) 5 9 cancelled waiting_world ≡ (err forbidden, waiting_world))
    × (Changes.reschedule service (at now) 5 9 (some start) waiting_world
        ≡ (err forbidden, waiting_world))
    × (Changes.set_notes (at now) 5 9 "hi" waiting_world ≡ (err forbidden, waiting_world))
    × (Changes.set_meeting_url (at now) 5 9 (some "") waiting_world
        ≡ (err forbidden, waiting_world))
unfolding find_row
stranger_is_refused_example =
    stranger_is_refused service (at now) 5 9 0 waiting waiting_world confirm cancelled start "hi" ""
      refl refl refl refl

abbrev agreed_world : World
agreed_world = record empty_world { db = record (empty_world.db) { sessions = accepted ∷ [] } }

client_is_no_coach_example :
    (Answers.respond_as_coach service (at now) 5 2 confirm agreed_world
      ≡ (err forbidden, agreed_world))
    × (Changes.set_status 1 (at now) 5 2 completed agreed_world ≡ (err forbidden, agreed_world))
    × (Changes.set_notes (at now) 5 2 "hi" agreed_world ≡ (err forbidden, agreed_world))
    × (Changes.set_meeting_url (at now) 5 2 (some "") agreed_world ≡ (err forbidden, agreed_world))
unfolding find_row Changes.may_become
client_is_no_coach_example =
    client_is_no_coach service (at now) 5 2 0 accepted agreed_world confirm completed "hi" "" refl
      refl refl refl refl

-- The token of the free booking opens it.
abbrev booked : CoachingSession
booked = record waiting {
  id = 7;
  duration_minutes = 45;
  topic = "dates";
  payment_status = not_required;
  amount_cents = 0;
  payment_ref = none;
}

books : Booking.book_free service (at now) request empty_world ≡ (ok booked, booked_world)
unfolding Booking.book_free Booking.store_request Booking.request_params notify_requested
    create_coaching_session created_row insert_row conflicts_in find_row find_coach find_user
    respond_deadline
books = refl

token_opens_booking_example :
    Emailed "t0ken" booked empty_world booked_world
    × (Answers.respond_with_token service (at (now + hour)) 7 "t0ken" confirm booked_world
        ≡ Answers.respond service (at (now + hour)) booked confirm booked_world)
token_opens_booking_example =
    token_opens_booking service (at now) (at (now + hour)) request "t0ken" booked confirm
      empty_world booked_world refl refl books

-- Two days later the request has expired.
one_due : length (due_rows (at (now + 2 * day)) waiting_world.db.sessions) < 2
unfolding overdue
one_due = omega arith

expire_pending-Swept_example :
    Swept (at (now + 2 * day)) (Sweep.expire_pending 2 (at (now + 2 * day)) 0 waiting_world)
expire_pending-Swept_example = expire_pending-Swept 2 (at (now + 2 * day)) 0 waiting_world one_due

-- The client cancels the paid request: the card is to be released.
abbrev dropped : CoachingSession
dropped = record waiting {
  status = cancelled;
  payment_status = releasing;
  calendar_sequence = 1;
  updated_at = now + hour;
}

abbrev dropped_world : World
dropped_world = (Changes.set_status 1 (at (now + hour)) 5 2 cancelled waiting_world).1

drops :
    Changes.set_status 1 (at (now + hour)) 5 2 cancelled waiting_world ≡ (ok dropped, dropped_world)
unfolding Changes.set_status Changes.change_status Changes.apply_status Changes.move_status
    Changes.may_become Changes.notify_cancelled participant update_session_status status_row
    update_one find_row put_row find_coach find_user
drops = refl

set_status-MovedTo_example : MovedTo 5 2 cancelled waiting_world dropped_world
set_status-MovedTo_example =
    set_status-MovedTo 0 (at (now + hour)) 5 2 cancelled waiting_world dropped_world dropped drops
