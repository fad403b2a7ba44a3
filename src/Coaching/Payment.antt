-- ===== src/Coaching/Payment.antt =====
-- ApplyPaymentEvent and authorized of backend/internal/coaching/payment.go: what a webhook of the
-- payment provider does to the session it pays for.
pub mod Redelivery
use dating_coach.Base.{
  ℕ, Bool, true, false, some, String, List, [], ◌∷◌, ltb, text_eq, ◌||◌, if◌then◌else◌,
}
use dating_coach.Store.Status.{Status, pending_payment, expired, status_eq}
use dating_coach.Store.Rows.{CoachingSession, PaymentEventRow}
use dating_coach.Store.Table.{Write, written, slot_conflict, rejected, no_row}
use dating_coach.Store.Payments.{
  find_payment_ref, authorize_session, reinstate_authorized_session, expire_late_authorized_hold,
  mark_authorization_to_release, cancel_pending_payment_session,
}
use dating_coach.Coaching.Clock.{respond_deadline}
use dating_coach.Coaching.World.{
  Service, Env, World, Tx, not_found, internal, ok, required, fail, pure, exec, query_one,
  set_sessions, transaction, ◌>>=◌,
}
use dating_coach.Coaching.Booking.{notify_requested}

pub data EventKind : Type 0 where
  event_authorized event_expired event_ignored : EventKind

pub record Event : Type 0 where
  pub id : String
  pub kind : EventKind
  pub checkout_ref : String

-- The primary key of payment_events.
unfoldable pub event_recorded : String → List PaymentEventRow → Bool
event_recorded i [] = false
event_recorded i (e ∷ es) = text_eq e.provider_event_id i || event_recorded i es

abbrev pub is_ignored : EventKind → Bool
is_ignored event_ignored = true
is_ignored event_authorized = false
is_ignored event_expired = false

-- The authorisation of a booking that will not go ahead.
unfoldable pub give_up : Env → CoachingSession → Tx (Unit {0})
give_up env session = exec (mark_authorization_to_release session.id env.db_now)

-- The coach is asked; the token of the request goes out by email.
unfoldable pub ask_coach : ℕ → String → Tx (Unit {0})
ask_coach i token = notify_requested i token

-- The savepoint round ReinstateAuthorizedSession: a conflict or no row leaves the transaction alive.
abbrev pub revived : Env → CoachingSession → String → Write → Tx (Unit {0})
revived env session token (written r rows) w = ask_coach session.id token (set_sessions w rows)
revived env session token slot_conflict w = give_up env session w
revived env session token no_row w = give_up env session w
revived env session token rejected w = fail internal w

unfoldable pub revive : Service → Env → CoachingSession → String → Tx (Unit {0})
revive svc env session token w =
    revived env session token
      (reinstate_authorized_session session.id (some (svc.hash_token token))
        (some (respond_deadline env.now session.scheduled_time)) env.db_now w.db.sessions)
      w

unfoldable pub authorize : Service → Env → CoachingSession → String → Tx (Unit {0})
authorize svc env session token = do
  requested ←
      query_one
        (authorize_session session.id (some (svc.hash_token token))
          (some (respond_deadline env.now session.scheduled_time)) env.db_now)
        internal
  ask_coach session.id token

-- The switch of `authorized` on the status of a session that has not started.
abbrev pub by_status : Service → Env → CoachingSession → String → Status → Tx (Unit {0})
by_status svc env session token pending_payment = authorize svc env session token
by_status svc env session token expired = revive svc env session token
by_status svc env session token _ = give_up env session

unfoldable pub authorized_too_late : Env → CoachingSession → Tx (Unit {0})
authorized_too_late env session =
    if status_eq session.status pending_payment
    then exec (expire_late_authorized_hold session.id env.db_now)
    else give_up env session

unfoldable pub on_authorized : Service → Env → CoachingSession → Tx (Unit {0})
on_authorized svc env session = do
  token ← required env.random_token internal
  if ltb env.now session.scheduled_time
      then by_status svc env session token session.status
      else authorized_too_late env session

abbrev pub on_event : Service → Env → CoachingSession → EventKind → Tx (Unit {0})
on_event svc env session event_authorized = on_authorized svc env session
on_event svc env session event_expired = exec (cancel_pending_payment_session session.id env.db_now)
on_event svc env session event_ignored = pure tt

-- RecordPaymentEvent inserted the row.
unfoldable pub record_event : String → ℕ → World → World
record_event i session_id w = record w {
  db = record (w.db) {
    payment_events =
        record { provider_event_id = i; session_id = session_id } ∷ w.db.payment_events;
  };
}

-- A redelivered event leaves before anything is written.
unfoldable pub apply_event : Service → Env → Event → CoachingSession → Tx (Unit {0})
apply_event svc env ev session w =
    if event_recorded ev.id w.db.payment_events
    then (ok tt, w)
    else transaction env (λ v. on_event svc env session ev.kind (record_event ev.id session.id v)) w

unfoldable pub apply_payment_event : Service → Env → Event → Tx (Unit {0})
apply_payment_event svc env ev =
    if is_ignored ev.kind || text_eq ev.checkout_ref "" then pure tt else (do
      session ← λ w. required (find_payment_ref ev.checkout_ref w.db.sessions) not_found w
      apply_event svc env ev session)
