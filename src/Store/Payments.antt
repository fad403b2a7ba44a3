-- ===== src/Store/Payments.antt =====
-- The UPDATE statements that follow the payment of one session
-- (backend/internal/store/db/coaching.sql.go).
use dating_coach.Base.{
  ℕ, Bool, false, not, Option, none, some, String, [], ◌∷◌, text_eq, is_some, ◌&&◌, ◌||◌,
  if◌then◌else◌,
}
use dating_coach.Store.Status.{
  pending_payment, pending, scheduled, expired, cancelled, PaymentStatus, awaiting, authorized,
  paid, releasing, released, refund_due, refunded, expiring, failed, status_eq, payment_eq,
}
use dating_coach.Store.Rows.{CoachingSession, Time}
use dating_coach.Store.Table.{Rows, Write, update_one}
use dating_coach.Store.Updates.{write_one}

abbrev pub has_ref : String → Option String → Bool
has_ref ref none = false
has_ref ref (some t) = text_eq t ref

-- GetSessionByPaymentRefForUpdate
unfoldable pub find_payment_ref : String → Rows → Option CoachingSession
find_payment_ref ref [] = none
find_payment_ref ref (r ∷ rs) =
    let rest = find_payment_ref ref rs in if has_ref ref r.payment_ref then some r else rest

abbrev pub awaits_payment : CoachingSession → Bool
awaits_payment r = status_eq r.status pending_payment

unfoldable pub authorized_row :
    Option String → Option Time → Time → CoachingSession → CoachingSession
authorized_row token respond_by now r = record r {
  status = pending;
  payment_status = authorized;
  hold_expires_at = none;
  confirmation_token = token;
  respond_by = respond_by;
  updated_at = now;
}

unfoldable pub authorize_session :
    ℕ → Option String → Option Time → Time → Rows → Option CoachingSession × Rows
authorize_session i token respond_by now rows =
    update_one i awaits_payment (authorized_row token respond_by now) rows

-- payment_status IN ('pending', 'expiring', 'failed')
abbrev pub unheld : PaymentStatus → Bool
unheld p = payment_eq p awaiting || payment_eq p expiring || payment_eq p failed

unfoldable pub revivable : CoachingSession → Bool
revivable r = status_eq r.status expired && is_some r.hold_expires_at && unheld r.payment_status

unfoldable pub reinstate_authorized_session : ℕ → Option String → Option Time → Time → Rows → Write
reinstate_authorized_session i token respond_by now rows =
    write_one i revivable (authorized_row token respond_by now) rows

unfoldable pub late_row : Time → CoachingSession → CoachingSession
late_row now r = record r { status = expired; payment_status = releasing; updated_at = now }

unfoldable pub expire_late_authorized_hold : ℕ → Time → Rows → Option CoachingSession × Rows
expire_late_authorized_hold i now rows = update_one i awaits_payment (late_row now) rows

unfoldable pub paid_row : PaymentStatus → Time → CoachingSession → CoachingSession
paid_row p now r = record r { payment_status = p; updated_at = now }

unfoldable pub releasable : CoachingSession → Bool
releasable r =
    not (status_eq r.status pending)
    && not (status_eq r.status scheduled)
    && (unheld r.payment_status || payment_eq r.payment_status authorized)

unfoldable pub mark_authorization_to_release : ℕ → Time → Rows → Option CoachingSession × Rows
mark_authorization_to_release i now rows = update_one i releasable (paid_row releasing now) rows

abbrev pub pays : PaymentStatus → CoachingSession → Bool
pays p r = payment_eq r.payment_status p

unfoldable pub mark_session_captured : ℕ → Time → Rows → Option CoachingSession × Rows
mark_session_captured i now rows = update_one i (pays authorized) (paid_row paid now) rows

unfoldable pub mark_authorization_released : ℕ → Time → Rows → Option CoachingSession × Rows
mark_authorization_released i now rows = update_one i (pays releasing) (paid_row released now) rows

unfoldable pub mark_session_refunded : ℕ → Time → Rows → Option CoachingSession × Rows
mark_session_refunded i now rows = update_one i (pays refund_due) (paid_row refunded now) rows

unfoldable pub mark_checkout_expired : ℕ → Time → Rows → Option CoachingSession × Rows
mark_checkout_expired i now rows = update_one i (pays expiring) (paid_row failed now) rows

unfoldable pub abandoned_row : Time → CoachingSession → CoachingSession
abandoned_row now r = record r { status = cancelled; payment_status = failed; updated_at = now }

unfoldable pub cancel_pending_payment_session : ℕ → Time → Rows → Option CoachingSession × Rows
cancel_pending_payment_session i now rows = update_one i awaits_payment (abandoned_row now) rows

-- CASE WHEN payment_ref IS NULL THEN 'failed' ELSE 'expiring' END
abbrev pub closing : Option String → PaymentStatus
closing none = failed
closing (some ref) = expiring

unfoldable pub freed_row : Time → CoachingSession → CoachingSession
freed_row now r = record r {
  status = cancelled;
  payment_status = closing r.payment_ref;
  hold_expires_at = none;
  updated_at = now;
}

unfoldable pub release_pending_payment_session : ℕ → Time → Rows → Option CoachingSession × Rows
release_pending_payment_session i now rows = update_one i awaits_payment (freed_row now) rows
