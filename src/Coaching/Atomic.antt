-- ===== src/Coaching/Atomic.antt =====
-- What a request that fails leaves behind (the transactions of
-- backend/internal/coaching/service.go and payment.go).
use dating_coach.Store.Table.{find_row}
use dating_coach.Coaching.Slots.{check_bookable}
use dating_coach.Base.{
  if◌then◌else◌, ℕ, zero, suc, ◌≡◌, refl, arith, Option, none, some, inl, inr, Option-cases, String,
  ◌==◌,
}
use dating_coach.Store.Status.{Status}
use dating_coach.Store.Rows.{CoachingSession, Time}
use dating_coach.Store.Payments.{find_payment_ref, release_pending_payment_session}
use dating_coach.Store.Table.{Rows}
use dating_coach.Coaching.World.{participant, World, Env, Service, Error, Result, Tx, err, ok}
use dating_coach.Coaching.Effects.{settle_err}
use dating_coach.Coaching.Answers
use dating_coach.Coaching.Booking
use dating_coach.Coaching.Changes
use dating_coach.Coaching.Payment

-- A failure leaves the database as it was; calls of the payment provider stay made.
abbrev RollsBack : {A : Type 0} → Tx A → Type 0
RollsBack m = (w : World) (e : Error) → (m w).0 ≡ err e → (m w).1.db ≡ w.db

respond-RollsBack :
    (svc : Service) (env : Env) (s : CoachingSession) (action : Answers.Action)
    → RollsBack (Answers.respond svc env s action)
unfolding Answers.respond
respond-RollsBack svc env s action w e h =
    ground (arith, h, settle_err env w (Answers.answer svc env s.id action w) e)

book_free-RollsBack :
    (svc : Service) (env : Env) (r : Booking.Request) → RollsBack (Booking.book_free svc env r)
unfolding Booking.book_free
book_free-RollsBack svc env r w e h = elim (Option-cases env.random_token) [
  | inl n ↦ rw n refl
  | inr (token, n) ↦
      let q = settle_err env w (Booking.store_request svc env r token w) e in
      ground (arith, h, n, q)
]

apply_payment_event-RollsBack :
    (svc : Service) (env : Env) (ev : Payment.Event)
    → RollsBack (Payment.apply_payment_event svc env ev)
unfolding Payment.apply_payment_event Payment.apply_event
apply_payment_event-RollsBack svc env ev w e h =
    elim (Option-cases (find_payment_ref ev.checkout_ref w.db.sessions)) [
      | inl n ↦ ground (arith, h, n)
      | inr (s, n) ↦
          let q =
            settle_err env w
              (Payment.on_event svc env s ev.kind (Payment.record_event ev.id s.id w)) e in
          ground (arith, h, n, q)
    ]

reschedule_from-RollsBack :
    (svc : Service) (env : Env) (s : CoachingSession) (actor_id : ℕ) (start : Time)
    → RollsBack (Changes.reschedule_from svc env s actor_id start)
unfolding Changes.reschedule_from check_bookable
reschedule_from-RollsBack svc env s actor_id start w e h =
    let by_coach = actor_id == s.coach_id in
    elim (Option-cases (if by_coach then some "" else env.random_token)) [
      | inl n ↦ ground (arith, h, n)
      | inr (token, n) ↦
          let q = settle_err env w (Changes.move_session svc env s by_coach start token w) e in
          ground (arith, h, n, q)
    ]

or_retry-RollsBack :
    (o : Option CoachingSession × Rows) (retry : Tx CoachingSession) (w : World) (e : Error)
    → ((retry w).0 ≡ err e → (retry w).1.db ≡ w.db)
    → (Changes.or_retry o retry w).0 ≡ err e
    → (Changes.or_retry o retry w).1.db ≡ w.db
or_retry-RollsBack (none, rows) retry w e k h = k h
or_retry-RollsBack (some r, rows) retry w e k h = ground (arith, h)

apply_status-RollsBack :
    (env : Env) (retry : Tx CoachingSession) (s : CoachingSession) (j : ℕ) (target : Status)
    → RollsBack retry
    → RollsBack (Changes.apply_status env retry s j target)
unfolding Changes.apply_status
apply_status-RollsBack env retry s j target k w e h = ground (
  arith,
  h,
  or_retry-RollsBack (release_pending_payment_session s.id env.db_now w.db.sessions) retry w e
      (k w e),
  settle_err env w (Changes.move_status env s (j == s.coach_id) target w) e,
)

change_status-RollsBack :
    (env : Env) (retry : Tx CoachingSession) (s : CoachingSession) (j : ℕ) (target : Status)
    → RollsBack retry
    → RollsBack (Changes.change_status env retry s j target)
unfolding Changes.change_status
change_status-RollsBack env retry s j target k w e h =
    ground (arith, h, apply_status-RollsBack env retry s j target k w e)

set_status-RollsBack :
    (fuel : ℕ) (env : Env) (session_id actor_id : ℕ) (target : Status)
    → RollsBack (Changes.set_status fuel env session_id actor_id target)
unfolding Changes.set_status participant
set_status-RollsBack zero env i j target w e h = refl
set_status-RollsBack (suc fuel) env i j target w e h =
    elim (Option-cases (find_row i w.db.sessions)) [
      | inl n ↦ rw n refl
      | inr (s, n) ↦
          let k =
            change_status-RollsBack env (Changes.set_status fuel env i j target) s j target
              (set_status-RollsBack fuel env i j target) w e in
          ground (arith, h, n, k)
    ]

set_meeting_url-RollsBack :
    (env : Env) (session_id coach_id : ℕ) (url : Option String)
    → RollsBack (Changes.set_meeting_url env session_id coach_id url)
unfolding Changes.set_meeting_url participant
set_meeting_url-RollsBack env i j url w e h = elim (Option-cases url) [
  | inl n ↦ rw n refl
  | inr (link, n) ↦
      let q = settle_err env w (Changes.link_session env i link w) e in ground (arith, h, n, q)
]

-- The requests that run in a transaction, or in one statement.
pub data Attempt : Type 0 where
  answers : CoachingSession → Answers.Action → Attempt
  books : Booking.Request → Attempt
  moves : CoachingSession → ℕ → Time → Attempt
  sets_status : ℕ → ℕ → ℕ → Status → Attempt
  links : ℕ → ℕ → Option String → Attempt
  delivers : Payment.Event → Attempt

-- The error of an outcome, if it is one.
abbrev pub error_of : {A : Type 0} → Result A × World → Option Error × World
error_of (ok a, w) = (none, w)
error_of (err e, w) = (some e, w)

abbrev pub attempt : Service → Env → Attempt → World → Option Error × World
attempt svc env (answers s action) w = error_of (Answers.respond svc env s action w)
attempt svc env (books r) w = error_of (Booking.book_free svc env r w)
attempt svc env (moves s j start) w = error_of (Changes.reschedule_from svc env s j start w)
attempt svc env (sets_status fuel i j target) w =
    error_of (Changes.set_status fuel env i j target w)
attempt svc env (links i j url) w = error_of (Changes.set_meeting_url env i j url w)
attempt svc env (delivers ev) w = error_of (Payment.apply_payment_event svc env ev w)

failed :
    {A : Type 0} (r : Result A × World) (w w' : World) (e : Error)
    → ((x : Error) → r.0 ≡ err x → r.1.db ≡ w.db)
    → error_of r ≡ (some e, w')
    → w'.db ≡ w.db
failed (ok a, v) w w' e k h = ground (arith, h)
failed (err x, v) w w' e k h = ground (arith, h, k x refl)

-- A request that fails leaves the database as it was, for an answer to a request, a free booking, a
-- move, a change of status, a new meeting link and a payment webhook: no row, no email and no
-- recorded event of it survives, also when the commit or the charge of the card is what failed.
pub failure_rolls_back :
    (svc : Service) (env : Env) (a : Attempt) (w w' : World) (e : Error)
    → attempt svc env a w ≡ (some e, w')
    → w'.db ≡ w.db
failure_rolls_back svc env (answers s action) w w' e =
    failed _ w w' e (respond-RollsBack svc env s action w)
failure_rolls_back svc env (books r) w w' e = failed _ w w' e (book_free-RollsBack svc env r w)
failure_rolls_back svc env (moves s j start) w w' e =
    failed _ w w' e (reschedule_from-RollsBack svc env s j start w)
failure_rolls_back svc env (sets_status fuel i j target) w w' e =
    failed _ w w' e (set_status-RollsBack fuel env i j target w)
failure_rolls_back svc env (links i j url) w w' e =
    failed _ w w' e (set_meeting_url-RollsBack env i j url w)
failure_rolls_back svc env (delivers ev) w w' e =
    failed _ w w' e (apply_payment_event-RollsBack svc env ev w)
