-- ===== src/Coaching/Sound/Payments.antt =====
-- The invariant through the webhook of the payment provider.
use dating_coach.Coaching.Sound.Booking.{cancel_hold-IsSound}
use dating_coach.Coaching.Effects.{notify_requested-SameSessions}
use dating_coach.Coaching.Clock.{respond_deadline}
use dating_coach.Coaching.Sound.Handlers.{required-Lands, settle-WorldSound, Lands, WorldSound}
use dating_coach.Coaching.Sound.Answering.{one_of-Lands}
use dating_coach.Coaching.Lifecycle.Statements.{
  released_row-IsConsistent, late_row-IsConsistent, authorized_row-IsConsistent,
}
use dating_coach.Store.Status.{status_eq, expired, Status, releasing, pending_payment}
use dating_coach.Coaching.Sound.{
  update_one, write_one-WriteSound, update_one-IsSound, WriteSound, All-find_row, Write, Keeps,
}
use dating_coach.Store.Payments.{
  revivable, reinstate_authorized_session, mark_authorization_to_release,
  expire_late_authorized_hold, authorize_session, releasable, has_ref, awaits_payment, paid_row,
  late_row, find_payment_ref, authorized_row,
}
use dating_coach.Coaching.World.{internal, set_sessions, World, Env, Service}
use dating_coach.Base.{
  ltb, subst, inr, Option-cases, inl, Bool-cases, ◌≡◌, ◌≢◌, refl, arith, true, some, is_some,
  String, [], ◌∷◌,
}
use dating_coach.Store.Rows.{CoachingSession, Time}
use dating_coach.Store.Table.{Rows, find_row}
use dating_coach.Coaching.Payment
use dating_coach.Coaching.Calendar.{Apart, Exclusive}

-- A row found by its payment reference is the row under its key.
found-by_key :
    (ref : String) (s : CoachingSession) (rows : Rows)
    → Exclusive rows
    → find_payment_ref ref rows ≡ some s
    → (find_row s.id rows ≡ some s) × (is_some s.payment_ref ≡ true)
unfolding find_payment_ref find_row
found-by_key ref s [] x e = cc
found-by_key ref s (t ∷ ts) x e = elim (Bool-cases (has_ref ref t.payment_ref)) [
  | inl here ↦
      let same : t ≡ s = ground (arith, here) in
      (rw (← same) (ground arith), rw (← same) (ground (arith, here)))
  | inr there ↦
      let below : find_payment_ref ref ts ≡ some s = ground (arith, there) in
      let deep = found-by_key ref s ts x.1 below in
      let apart : Apart t s = All-find_row (Apart t) s.id s ts x.0 deep.0 in
      (ground (arith, deep.0, apart.keys), deep.1)
]

released-Keeps :
    (now : Time) (r : CoachingSession)
    → r.status ≢ pending_payment
    → is_some r.payment_ref ≡ true
    → Keeps releasable (paid_row releasing now) r
unfolding paid_row
released-Keeps now r n k = record {
  consistent = λ c g. released_row-IsConsistent now c g n k;
  shrinks = λ g. ground arith;
}

authorized-Keeps :
    (token : String) (deadline now : Time) (r : CoachingSession)
    → is_some r.payment_ref ≡ true
    → Keeps awaits_payment (authorized_row (some token) (some deadline) now) r
unfolding authorized_row
authorized-Keeps token deadline now r k = record {
  consistent = λ c g. authorized_row-IsConsistent now c token deadline k;
  shrinks = λ g. ground arith;
}

authorized-id :
    (token : String) (deadline now : Time) (r : CoachingSession)
    → (authorized_row (some token) (some deadline) now r).id ≡ r.id
unfolding authorized_row
authorized-id token deadline now r = refl

late-Keeps :
    (now : Time) (r : CoachingSession)
    → is_some r.payment_ref ≡ true
    → Keeps awaits_payment (late_row now) r
unfolding late_row
late-Keeps now r k = record {
  consistent = λ c g. late_row-IsConsistent now c k;
  shrinks = λ g. ground arith;
}

-- What is known of the session that an event is for, inside its transaction.
record Located (s : CoachingSession) (rows : Rows) : Type 0 where
  at_key : find_row s.id rows ≡ some s
  with_ref : is_some s.payment_ref ≡ true

module _ (svc : Service) (env : Env) (s : CoachingSession) (w : World) (l : Located s w.db.sessions)
    (v : WorldSound w) where
  only_row : (r : CoachingSession) → find_row s.id w.db.sessions ≡ some r → s ≡ r
  only_row r e = ground (arith, l.at_key)

  asked-Lands :
      (token : String) (w' : World) → WorldSound w' → Lands (Payment.ask_coach s.id token w')
  unfolding Payment.ask_coach
  asked-Lands token w' v' = ground (arith, notify_requested-SameSessions s.id token w', v')

  give_up-Lands : s.status ≢ pending_payment → Lands (Payment.give_up env s w)
  unfolding Payment.give_up mark_authorization_to_release
  give_up-Lands n =
      update_one-IsSound s.id releasable (paid_row releasing env.db_now) w.db.sessions
        (λ r e.
          released-Keeps env.db_now r (subst (λ q. q.status ≢ pending_payment) (only_row r e) n)
            (subst (λ q. is_some q.payment_ref ≡ true) (only_row r e) l.with_ref))
        v

  known_ref :
      (r : CoachingSession) → find_row s.id w.db.sessions ≡ some r → is_some r.payment_ref ≡ true
  known_ref r e = subst (λ q. is_some q.payment_ref ≡ true) (only_row r e) l.with_ref

  authorize-Lands : (token : String) → Lands (Payment.authorize svc env s token w)
  unfolding Payment.authorize authorize_session
  authorize-Lands token =
      let hash = svc.hash_token token in
      let deadline = respond_deadline env.now s.scheduled_time in
      let change = authorized_row (some hash) (some deadline) env.db_now in
      let sound =
        update_one-IsSound s.id awaits_payment change w.db.sessions
          (λ r e. authorized-Keeps hash deadline env.db_now r (known_ref r e)) v in
      one_of-Lands internal w (update_one s.id awaits_payment change w.db.sessions)
        (λ requested. Payment.ask_coach s.id token)
        (λ r e.
          asked-Lands token (set_sessions w (update_one s.id awaits_payment change w.db.sessions).1)
            sound)

  revived-Lands :
      (token : String) (o : Write)
      → s.status ≢ pending_payment
      → WriteSound o
      → Lands (Payment.revived env s token o w)
  revived-Lands token (Write.written r rows) n k = asked-Lands token (set_sessions w rows) k.1
  revived-Lands token Write.slot_conflict n k = give_up-Lands n
  revived-Lands token Write.rejected n k = tt
  revived-Lands token Write.no_row n k = give_up-Lands n

  revive-Lands :
      (token : String) → s.status ≢ pending_payment → Lands (Payment.revive svc env s token w)
  unfolding Payment.revive reinstate_authorized_session
  revive-Lands token n =
      let hash = svc.hash_token token in
      let deadline = respond_deadline env.now s.scheduled_time in
      revived-Lands token _ n (
        write_one-WriteSound s.id revivable (authorized_row (some hash) (some deadline) env.db_now)
          w.db.sessions
          (λ r e c g. authorized_row-IsConsistent env.db_now c hash deadline (known_ref r e))
          (authorized-id hash deadline env.db_now) v)

  by_status-Lands :
      (token : String) (status : Status)
      → s.status ≡ status
      → Lands (Payment.by_status svc env s token status w)
  by_status-Lands token pending_payment e = authorize-Lands token
  by_status-Lands token expired e = revive-Lands token (ground arith)
  by_status-Lands token _ e = give_up-Lands (ground arith)

  authorized_too_late-Lands : Lands (Payment.authorized_too_late env s w)
  unfolding Payment.authorized_too_late expire_late_authorized_hold
  authorized_too_late-Lands = elim (Bool-cases (status_eq s.status pending_payment)) [
    | inl held ↦ rw held (
        update_one-IsSound s.id awaits_payment (late_row env.db_now) w.db.sessions
          (λ r e. late-Keeps env.db_now r (known_ref r e)) v)
    | inr free ↦ rw free (give_up-Lands (ground (arith, free)))
  ]

  on_authorized-Lands : Lands (Payment.on_authorized svc env s w)
  unfolding Payment.on_authorized
  on_authorized-Lands = required-Lands env.random_token internal w _ (λ token.
      elim (Bool-cases (ltb env.now s.scheduled_time)) [
        | inl early ↦ rw early (by_status-Lands token s.status refl)
        | inr late ↦ rw late authorized_too_late-Lands
      ])

  on_event-Lands : (kind : Payment.EventKind) → Lands (Payment.on_event svc env s kind w)
  on_event-Lands Payment.event_authorized = on_authorized-Lands
  on_event-Lands Payment.event_expired = cancel_hold-IsSound s.id env.db_now w.db.sessions v
  on_event-Lands Payment.event_ignored = v

-- Any event, delivered any number of times, keeps the invariant.
pub apply_payment_event-WorldSound :
    (svc : Service) (env : Env) (ev : Payment.Event) (w : World)
    → WorldSound w
    → WorldSound (Payment.apply_payment_event svc env ev w).1
unfolding Payment.apply_payment_event Payment.apply_event Payment.record_event
apply_payment_event-WorldSound svc env ev w v =
    elim (Option-cases (find_payment_ref ev.checkout_ref w.db.sessions)) [
      | inl e ↦ ground (arith, e, v)
      | inr (s, e) ↦
          let (key, ref) = found-by_key ev.checkout_ref s w.db.sessions v.exclusive e in
          let w' = Payment.record_event ev.id s.id w in
          let l : Located s w'.db.sessions = record { at_key = key; with_ref = ref } in
          let done =
            settle-WorldSound env w (Payment.on_event svc env s ev.kind w') v
              (on_event-Lands svc env s w' l v ev.kind) in
          ground (arith, e, v, done)
    ]
