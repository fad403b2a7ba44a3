-- ===== src/Coaching/Payment/Redelivery.antt =====
-- The deduplication of webhooks: RecordPaymentEvent in ApplyPaymentEvent
-- (backend/internal/coaching/payment.go).
use dating_coach.Coaching.Payment.{event_ignored, event_expired, event_authorized}
use dating_coach.Base.{
  text_eq_refl, ◌||◌, ◌≡◌, refl, arith, true, inl, inr, Bool-cases, Option-cases, text_eq, String,
  ℕ,
}
use dating_coach.Store.Rows.{CoachingSession}
use dating_coach.Store.Status.{Status}
use dating_coach.Store.Table.{Write, written, slot_conflict, rejected, no_row}
use dating_coach.Store.Payments.{find_payment_ref}
use dating_coach.Coaching.World.{Env, Service, World, ok}
use dating_coach.Coaching.Booking.{notify_requested}
use dating_coach.Coaching.Payment

-- The recorded events are what they were.
abbrev SameEvents : World → World → Type 0
SameEvents w w' = w'.db.payment_events ≡ w.db.payment_events

notify_requested-SameEvents :
    (i : ℕ) (token : String) (w : World) → SameEvents w (notify_requested i token w).1
unfolding notify_requested
notify_requested-SameEvents i token w = ground arith

authorize-SameEvents :
    (svc : Service) (env : Env) (s : CoachingSession) (token : String) (w : World)
    → SameEvents w (Payment.authorize svc env s token w).1
unfolding Payment.authorize Payment.ask_coach notify_requested
authorize-SameEvents svc env s token w = ground arith

revived-SameEvents :
    (env : Env) (s : CoachingSession) (token : String) (x : Write) (w : World)
    → SameEvents w (Payment.revived env s token x w).1
unfolding Payment.ask_coach Payment.give_up
revived-SameEvents env s token (written r rows) w = notify_requested-SameEvents s.id token _
revived-SameEvents env s token slot_conflict w = refl
revived-SameEvents env s token no_row w = refl
revived-SameEvents env s token rejected w = refl

revive-SameEvents :
    (svc : Service) (env : Env) (s : CoachingSession) (token : String) (w : World)
    → SameEvents w (Payment.revive svc env s token w).1
unfolding Payment.revive
revive-SameEvents svc env s token w = revived-SameEvents env s token _ w

by_status-SameEvents :
    (svc : Service) (env : Env) (s : CoachingSession) (token : String) (status : Status) (w : World)
    → SameEvents w (Payment.by_status svc env s token status w).1
unfolding Payment.give_up
by_status-SameEvents svc env s token status w =
    ground (arith, authorize-SameEvents svc env s token w, revive-SameEvents svc env s token w)

on_authorized-SameEvents :
    (svc : Service) (env : Env) (s : CoachingSession) (w : World)
    → SameEvents w (Payment.on_authorized svc env s w).1
unfolding Payment.on_authorized Payment.authorized_too_late Payment.give_up
on_authorized-SameEvents svc env s w = elim (Option-cases env.random_token) [
  | inl e ↦ rw e refl
  | inr (token, e) ↦ rw e (ground (arith, by_status-SameEvents svc env s token s.status w))
]

on_event-SameEvents :
    (svc : Service) (env : Env) (s : CoachingSession) (kind : Payment.EventKind) (w : World)
    → SameEvents w (Payment.on_event svc env s kind w).1
on_event-SameEvents svc env s event_authorized w = on_authorized-SameEvents svc env s w
on_event-SameEvents svc env s event_expired w = refl
on_event-SameEvents svc env s event_ignored w = refl

abbrev RecordedIn : Payment.Event → World → Type 0
RecordedIn ev w = Payment.event_recorded ev.id w.db.payment_events ≡ true

record_event-recorded :
    (ev : Payment.Event) (i : ℕ) (w : World) → RecordedIn ev (Payment.record_event ev.id i w)
unfolding Payment.record_event Payment.event_recorded
record_event-recorded ev i w = rw (text_eq_refl ev.id) refl

apply_event-recorded :
    (svc : Service) (env : Env) (ev : Payment.Event) (s : CoachingSession) (w w' : World)
    → Payment.apply_event svc env ev s w ≡ (ok tt, w')
    → RecordedIn ev w'
unfolding Payment.apply_event
apply_event-recorded svc env ev s w w' h = ground (
  arith,
  h,
  on_event-SameEvents svc env s ev.kind (Payment.record_event ev.id s.id w),
  record_event-recorded ev s.id w,
)

-- A webhook that is delivered again changes nothing: once an event has been applied, applying it
-- later leaves the database and the calls as they are, at whatever time, and whatever has happened
-- to the sessions since, as long as the recorded events are kept.
pub redelivery_changes_nothing :
    (svc : Service) (env env' : Env) (ev : Payment.Event) (w w' v : World)
    → Payment.apply_payment_event svc env ev w ≡ (ok tt, w')
    → ((i : String)
        → Payment.event_recorded i w'.db.payment_events ≡ true
        → Payment.event_recorded i v.db.payment_events ≡ true)
    → (Payment.apply_payment_event svc env' ev v).1 ≡ v
unfolding Payment.apply_payment_event Payment.apply_event
redelivery_changes_nothing svc env env' ev w w' v h kept =
    elim (Bool-cases (Payment.is_ignored ev.kind || text_eq ev.checkout_ref "")) [
      | inl i ↦ rw i refl
      | inr n ↦ elim (Option-cases (find_payment_ref ev.checkout_ref w.db.sessions)) [
        | inl e ↦ ground (arith, h, n, e)
        | inr (s, e) ↦
            let r = kept ev.id (apply_event-recorded svc env ev s w w' (ground (arith, h, n, e))) in
            ground (arith, n, r)
      ]
    ]
