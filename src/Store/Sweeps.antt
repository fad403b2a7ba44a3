-- ===== src/Store/Sweeps.antt =====
-- The statements of backend/internal/store/db/coaching.sql.go that read or change many sessions.
use dating_coach.Base.{
  ℕ, ◌+◌, Bool, false, Option, none, some, [], ◌∷◌, ltb, leb, ◌==◌, is_some, not, ◌&&◌,
  if◌then◌else◌, select, take, sort_by, any, length, map,
}
use dating_coach.Store.Status.{
  pending, expired, PaymentStatus, releasing, refund_due, expiring, status_eq, payment_eq,
  holds_slot,
}
use dating_coach.Store.Rows.{CoachingSession, Time}
use dating_coach.Store.Table.{Rows}
use dating_coach.Store.Updates.{given_back}
use dating_coach.Store.Payments.{awaits_payment, closing}

-- UPDATE … WHERE guard: the rows after it.
unfoldable pub update_all :
    (CoachingSession → Bool) → (CoachingSession → CoachingSession) → Rows → Rows
update_all guard change [] = []
update_all guard change (r ∷ rs) = (if guard r then change r else r) ∷ update_all guard change rs

-- respond_by < now(), hold_expires_at < $1: false for NULL.
abbrev pub before : Option Time → Time → Bool
before none now = false
before (some d) now = ltb d now

-- An absent instant sorts as 0; no row that the statements sort by it has one.
abbrev pub time_or_zero : Option Time → Time
time_or_zero none = 0
time_or_zero (some t) = t

unfoldable pub overdue : Time → CoachingSession → Bool
overdue now r = status_eq r.status pending && before r.respond_by now

unfoldable pub expired_row : Time → CoachingSession → CoachingSession
expired_row now r = record r {
  status = expired;
  payment_status = given_back r.payment_status;
  confirmation_token = none;
  calendar_sequence = r.calendar_sequence + 1;
  updated_at = now;
}

-- The subquery of ExpirePendingSessions: the overdue rows that no other transaction holds, the
-- earliest deadlines first, at most `limit` of them.
unfoldable pub overdue_batch : ℕ → (ℕ → Bool) → Time → Rows → Rows
overdue_batch limit held now rows =
    take limit (
      sort_by (λ r. time_or_zero r.respond_by)
        (select (λ r. overdue now r && not (held r.id)) rows))

unfoldable pub in_batch : Rows → CoachingSession → Bool
in_batch batch r = any (λ s. s.id == r.id) batch

-- The rows returned, and the table after it.
unfoldable pub expire_pending_sessions : ℕ → (ℕ → Bool) → Time → Rows → Rows × Rows
expire_pending_sessions limit held now rows =
    let batch = overdue_batch limit held now rows in
    (map (expired_row now) batch, update_all (in_batch batch) (expired_row now) rows)

unfoldable pub hold_lapsed : Time → CoachingSession → Bool
hold_lapsed now r = awaits_payment r && before r.hold_expires_at now

unfoldable pub lapsed_row : Time → CoachingSession → CoachingSession
lapsed_row db_now r = record r {
  status = expired;
  payment_status = closing r.payment_ref;
  updated_at = db_now;
}

-- The count of rows, and the table after it. `now` is the argument, `db_now` is now().
unfoldable pub expire_payment_holds : Time → Time → Rows → ℕ × Rows
expire_payment_holds now db_now rows =
    (length (select (hold_lapsed now) rows), update_all (hold_lapsed now) (lapsed_row db_now) rows)

unfoldable pub owes : PaymentStatus → CoachingSession → Bool
owes p r = payment_eq r.payment_status p && is_some r.payment_ref

abbrev owing : PaymentStatus → Rows → Rows
owing p rows = sort_by (λ r. r.updated_at) (select (owes p) rows)

unfoldable pub list_checkouts_to_expire : Rows → Rows
list_checkouts_to_expire = owing expiring

unfoldable pub list_authorizations_to_release : Rows → Rows
list_authorizations_to_release = owing releasing

unfoldable pub list_refunds_due : Rows → Rows
list_refunds_due = owing refund_due

unfoldable pub booked_between : ℕ → Time → Time → CoachingSession → Bool
booked_between coach_id from to r =
    r.coach_id == coach_id
    && holds_slot r.status
    && leb from r.scheduled_time
    && ltb r.scheduled_time to

unfoldable pub list_booked_slots : ℕ → Time → Time → Rows → Rows
list_booked_slots coach_id from to rows =
    sort_by (λ r. r.scheduled_time) (select (booked_between coach_id from to) rows)
