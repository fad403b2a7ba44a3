-- ===== src/Store/Inserts.antt =====
-- The INSERT statements on `coaching_sessions` and the checkout that is attached to a new row
-- (backend/internal/store/db/coaching.sql.go). The primary key and the check on the duration are
-- those of backend/migrations/000001_init.up.sql; a clash of the unique tokens is not modelled.
use dating_coach.Base.{
  ◌==◌, not, any, ℕ, Bool, true, Option, none, some, ◌∷◌, String, leb, is_some, ◌&&◌, if◌then◌else◌,
}
use dating_coach.Store.Status.{
  pending_payment, pending, not_required, awaiting, expiring, status_eq,
}
use dating_coach.Store.Payments.{has_ref}
use dating_coach.Store.Rows.{CoachingSession, Time}
use dating_coach.Store.Table.{
  Rows, Write, written, slot_conflict, rejected, find_row, conflicts_in, update_one,
}

-- `coaching_sessions_duration_check`
abbrev pub duration_allowed : ℕ → Bool
duration_allowed d = leb 15 d && leb d 240

-- INSERT under a fresh key, with the constraints of the table.
unfoldable pub insert_row : CoachingSession → Rows → Write
insert_row r rows =
    if is_some (find_row r.id rows)
    then slot_conflict
    else if duration_allowed r.duration_minutes
    then (if conflicts_in r.id r rows then slot_conflict else written r (r ∷ rows))
    else rejected

pub record CreateCoachingSession : Type 0 where
  pub user_id : ℕ
  pub coach_id : ℕ
  pub scheduled_time : Time
  pub duration_minutes : ℕ
  pub topic : String
  pub confirmation_token : Option String
  pub respond_by : Option Time

-- A new row: `id` stands for gen_random_uuid() and `now` for now().
unfoldable pub created_row : ℕ → Time → CreateCoachingSession → CoachingSession
created_row id now p = record {
  id = id;
  user_id = p.user_id;
  coach_id = p.coach_id;
  scheduled_time = p.scheduled_time;
  duration_minutes = p.duration_minutes;
  status = pending;
  topic = p.topic;
  coach_notes = "";
  created_at = now;
  updated_at = now;
  confirmation_token = p.confirmation_token;
  respond_by = p.respond_by;
  confirmed_at = none;
  calendar_sequence = 0;
  payment_status = not_required;
  amount_cents = 0;
  currency = "usd";
  payment_ref = none;
  hold_expires_at = none;
  meeting_url = "";
}

unfoldable pub create_coaching_session : ℕ → Time → CreateCoachingSession → Rows → Write
create_coaching_session id now p rows = insert_row (created_row id now p) rows

pub record CreatePendingPayment : Type 0 where
  pub user_id : ℕ
  pub coach_id : ℕ
  pub scheduled_time : Time
  pub duration_minutes : ℕ
  pub topic : String
  pub amount_cents : ℕ
  pub currency : String
  pub hold_expires_at : Option Time

unfoldable pub held_row : ℕ → Time → CreatePendingPayment → CoachingSession
held_row id now p = record {
  id = id;
  user_id = p.user_id;
  coach_id = p.coach_id;
  scheduled_time = p.scheduled_time;
  duration_minutes = p.duration_minutes;
  status = pending_payment;
  topic = p.topic;
  coach_notes = "";
  created_at = now;
  updated_at = now;
  confirmation_token = none;
  respond_by = none;
  confirmed_at = none;
  calendar_sequence = 0;
  payment_status = awaiting;
  amount_cents = p.amount_cents;
  currency = p.currency;
  payment_ref = none;
  hold_expires_at = p.hold_expires_at;
  meeting_url = "";
}

unfoldable pub create_pending_payment_session : ℕ → Time → CreatePendingPayment → Rows → Write
create_pending_payment_session id now p rows = insert_row (held_row id now p) rows

-- The CASE of AttachCheckout: a row that no longer waits for payment owes a closed checkout.
unfoldable pub attached_row : String → Time → CoachingSession → CoachingSession
attached_row ref now r = record r {
  payment_ref = some ref;
  payment_status = if status_eq r.status pending_payment then r.payment_status else expiring;
  updated_at = now;
}

-- The unique index on payment_ref (000007_payments.up.sql) refuses another row's reference.
unfoldable pub attach_checkout : ℕ → String → Time → Rows → Option CoachingSession × Rows
attach_checkout i ref now rows =
    if any (λ r. not (r.id == i) && has_ref ref r.payment_ref) rows
    then (none, rows)
    else update_one i (λ r. true) (attached_row ref now) rows
