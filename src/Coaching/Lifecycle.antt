-- ===== src/Coaching/Lifecycle.antt =====
-- What holds of one session row between requests: its status, its payment and its answering token
-- belong together.
use dating_coach.Base.{◌≡◌, Bool, true, false, Option, none, some, is_some, ◌||◌}
use dating_coach.Store.Status.{
  Status, pending_payment, pending, scheduled, declined, expired, completed, cancelled, no_show,
  PaymentStatus, not_required, awaiting, authorized, paid, releasing, released, expiring, failed,
  refund_due, refunded,
}
use dating_coach.Store.Inserts.{duration_allowed}
use dating_coach.Store.Rows.{CoachingSession}
pub mod Statements

-- The payment statuses a session may have in a status.
abbrev pub payment_allowed : Status → PaymentStatus → Bool
payment_allowed pending_payment awaiting = true
payment_allowed pending_payment _ = false
payment_allowed pending not_required = true
payment_allowed pending authorized = true
payment_allowed pending paid = true
payment_allowed pending _ = false
payment_allowed scheduled not_required = true
payment_allowed scheduled paid = true
payment_allowed scheduled _ = false
payment_allowed completed not_required = true
payment_allowed completed paid = true
payment_allowed completed _ = false
payment_allowed no_show not_required = true
payment_allowed no_show paid = true
payment_allowed no_show _ = false
payment_allowed cancelled authorized = false
payment_allowed cancelled awaiting = false
payment_allowed cancelled refund_due = false
payment_allowed cancelled refunded = false
payment_allowed cancelled _ = true
payment_allowed declined not_required = true
payment_allowed declined releasing = true
payment_allowed declined released = true
payment_allowed declined refund_due = true
payment_allowed declined refunded = true
payment_allowed declined _ = false
payment_allowed expired authorized = false
payment_allowed expired awaiting = false
payment_allowed expired paid = false
payment_allowed expired _ = true

-- The payment statuses behind which the provider holds something under the row's reference.
abbrev pub needs_ref : PaymentStatus → Bool
needs_ref not_required = false
needs_ref awaiting = false
needs_ref failed = false
needs_ref _ = true

-- Whether a status waits for the coach, and so carries a token and a deadline.
abbrev pub waits_for_coach : Status → Bool
waits_for_coach pending = true
waits_for_coach _ = false

abbrev pub waits_for_card : Status → Bool
waits_for_card pending_payment = true
waits_for_card _ = false

pub record IsConsistent (r : CoachingSession) : Type 0 where
  pub payment_fits : payment_allowed r.status r.payment_status ≡ true
  pub ref_known : needs_ref r.payment_status ≡ true → is_some r.payment_ref ≡ true
  pub token_known : waits_for_coach r.status ≡ true → is_some r.confirmation_token ≡ true
  pub deadline_known : waits_for_coach r.status ≡ true → is_some r.respond_by ≡ true
  pub duration_fits : duration_allowed r.duration_minutes ≡ true
  pub hold_known : waits_for_card r.status ≡ true → is_some r.hold_expires_at ≡ true
