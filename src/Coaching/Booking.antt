-- ===== src/Coaching/Booking.antt =====
-- BookSession and bookPaid of backend/internal/coaching/service.go and payment.go. A paid booking has
-- two halves, since other requests run while the provider starts the checkout.
pub mod Token
use dating_coach.Base.{
  ℕ, ◌+◌, Bool, true, false, not, Option, none, some, String, ◌∷◌, ltb, leb, ◌==◌, if◌then◌else◌,
}
use dating_coach.Store.Status.{pending_payment, status_eq}
use dating_coach.Store.Rows.{CoachingSession, Time}
use dating_coach.Store.Table.{Rows}
use dating_coach.Store.Inserts.{
  CreateCoachingSession, CreatePendingPayment, create_coaching_session,
  create_pending_payment_session, attach_checkout,
}
use dating_coach.Store.Payments.{cancel_pending_payment_session, mark_checkout_expired}
use dating_coach.Coaching.Clock.{
  default_session_minutes, max_int32, min_checkout_window, price_cents, respond_deadline,
}
use dating_coach.Coaching.World.{
  Service, Env, World, Tx, ProviderCall, checkout_created, checkout_expired, Checkout,
  CheckoutInput, invalid_input, payment_failed, internal, Result, ok, find_coach, find_live_user,
  guard, required, fail, pure, exec, query_write, set_sessions, transaction, ◌>>=◌, ◌>>◌,
}
use dating_coach.Coaching.Mail.{get_session_parties, mail_coach_request, mail_client_requested}
use dating_coach.Coaching.Slots.{check_bookable}

-- BookInput, parsed: none for a text that is no uuid or no RFC 3339 time, 0 for a duration that is
-- not positive.
pub record BookInput : Type 0 where
  pub coach_id : Option ℕ
  pub scheduled_time : Option Time
  pub duration_minutes : ℕ
  pub topic : String

-- A booking whose checks have passed.
pub record Request : Type 0 where
  pub user_id : ℕ
  pub coach_id : ℕ
  pub start : Time
  pub duration : ℕ
  pub topic : String

abbrev pub duration_or_default : ℕ → ℕ
duration_or_default d = if d == 0 then default_session_minutes else d

unfoldable pub check_booking : Service → Env → ℕ → BookInput → Tx Request
check_booking svc env user_id input = do
  coach_id ← required input.coach_id invalid_input
  start ← required input.scheduled_time invalid_input
  guard (not (ltb start env.now)) invalid_input
  let duration = duration_or_default input.duration_minutes
  check_bookable svc coach_id start duration true none
  pure (record {
    user_id = user_id;
    coach_id = coach_id;
    start = start;
    duration = duration;
    topic = input.topic;
  })

unfoldable pub request_params : Service → Env → Request → String → CreateCoachingSession
request_params svc env r token = record {
  user_id = r.user_id;
  coach_id = r.coach_id;
  scheduled_time = r.start;
  duration_minutes = r.duration;
  topic = r.topic;
  confirmation_token = some (svc.hash_token token);
  respond_by = some (respond_deadline env.now r.start);
}

unfoldable pub notify_requested : ℕ → String → Tx (Unit {0})
unfolding get_session_parties mail_coach_request mail_client_requested
notify_requested i token = do
  parties ← get_session_parties i
  mail_coach_request parties token false
  mail_client_requested parties

unfoldable pub store_request : Service → Env → Request → String → Tx CoachingSession
store_request svc env r token = do
  session ←
      query_write (create_coaching_session env.new_id env.db_now (request_params svc env r token))
        internal
  notify_requested session.id token
  pure session

-- The unpaid half of BookSession.
unfoldable pub book_free : Service → Env → Request → Tx CoachingSession
book_free svc env r = do
  token ← required env.random_token internal
  transaction env (store_request svc env r token)

-- The hold ends at the session's start, if that comes first.
abbrev pub hold_until : Service → Env → Time → Time
hold_until svc env start =
    if ltb start (env.now + svc.hold_ttl) then start else env.now + svc.hold_ttl

unfoldable pub hold_params : Service → Env → Request → ℕ → CreatePendingPayment
hold_params svc env r amount = record {
  user_id = r.user_id;
  coach_id = r.coach_id;
  scheduled_time = r.start;
  duration_minutes = r.duration;
  topic = r.topic;
  amount_cents = amount;
  currency = "usd";
  hold_expires_at = some (hold_until svc env r.start);
}

-- bookPaid up to CreatePendingPaymentSession. `start - now` is tested without a subtraction.
unfoldable pub hold_slot : Service → Env → Request → Tx CoachingSession
hold_slot svc env r = do
  coach ← λ w. required (find_coach r.coach_id w.db.coaches) internal w
  user ← λ w. required (find_live_user r.user_id w.db.users) internal w
  let amount = price_cents coach.hourly_rate_cents r.duration
  guard (leb amount max_int32) invalid_input
  guard (not (ltb r.start (env.now + min_checkout_window))) invalid_input
  query_write (create_pending_payment_session env.new_id env.db_now (hold_params svc env r amount))
      internal

abbrev pub checkout_result :
    World → ProviderCall → Option Checkout → Result (Option Checkout) × World
checkout_result w entry answer = (ok answer, record w { calls = entry ∷ w.calls })

abbrev answered : Option Checkout → Bool
answered none = false
answered (some c) = true

unfoldable pub create_checkout : Service → CheckoutInput → Tx (Option Checkout)
create_checkout svc input w =
    let answer = svc.payments.create_checkout w.calls input in
    checkout_result w (checkout_created input.session_id (answered answer)) answer

-- The checkout was not started: the hold is released.
unfoldable pub drop_hold : Env → ℕ → Tx CoachingSession
drop_hold env i = do exec (cancel_pending_payment_session i env.db_now); fail payment_failed

-- An attempt to close a checkout; its failure is the sweeper's to repair.
unfoldable pub close_checkout : Service → Env → ℕ → String → Tx (Unit {0})
close_checkout svc env i ref w =
    let answer = svc.payments.expire_checkout w.calls ref in
    let w' = record w { calls = checkout_expired ref answer ∷ w.calls } in
    if answer then exec (mark_checkout_expired i env.db_now) w' else (ok tt, w')

abbrev zero_uuid : ℕ
zero_uuid = 0

-- AttachCheckout failed: it matched nothing, or its reference is another row's. Its empty result has
-- taken the place of the session, so the hold that is released is that of the zero uuid.
unfoldable pub orphan_checkout : Service → Env → String → Tx CoachingSession
orphan_checkout svc env ref w =
    let answer = svc.payments.expire_checkout w.calls ref in
    let w' = record w { calls = checkout_expired ref answer ∷ w.calls } in
    (do exec (cancel_pending_payment_session zero_uuid env.db_now); fail internal) w'

unfoldable pub hand_out : Service → Env → String → CoachingSession → Tx CoachingSession
hand_out svc env ref session =
    if status_eq session.status pending_payment
    then pure session
    else (do close_checkout svc env session.id ref; fail payment_failed)

abbrev pub attach_result :
    Service → Env → ℕ → String → Option CoachingSession × Rows → Tx CoachingSession
attach_result svc env i ref (none, rows) w = orphan_checkout svc env ref w
attach_result svc env i ref (some session, rows) w =
    hand_out svc env ref session (set_sessions w rows)

unfoldable pub attach : Service → Env → ℕ → String → Tx CoachingSession
attach svc env i ref w =
    attach_result svc env i ref (attach_checkout i ref env.db_now w.db.sessions) w

abbrev expiry : Option Time → Time
expiry none = 0
expiry (some t) = t

unfoldable pub checkout_input : CoachingSession → String → CheckoutInput
checkout_input session email = record {
  session_id = session.id;
  amount_cents = session.amount_cents;
  customer_email = email;
  expires_at = expiry session.hold_expires_at;
}

abbrev pub attach_or_drop : Service → Env → ℕ → Option Checkout → Tx CoachingSession
attach_or_drop svc env i none = drop_hold env i
attach_or_drop svc env i (some c) = attach svc env i c.ref

-- bookPaid from CreateCheckout on; the URL of the checkout goes to the client and is not kept.
unfoldable pub start_checkout : Service → Env → String → CoachingSession → Tx CoachingSession
start_checkout svc env email session = do
  checkout ← create_checkout svc (checkout_input session email)
  attach_or_drop svc env session.id checkout

unfoldable pub book_paid : Service → Env → Request → Tx CoachingSession
book_paid svc env r = do
  session ← hold_slot svc env r
  user ← λ w. required (find_live_user r.user_id w.db.users) internal w
  start_checkout svc env user.email session

unfoldable pub book_session : Service → Env → ℕ → BookInput → Tx CoachingSession
book_session svc env user_id input = do
  r ← check_booking svc env user_id input
  if svc.payments.enabled then book_paid svc env r else book_free svc env r
