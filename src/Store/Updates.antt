-- ===== src/Store/Updates.antt =====
-- The UPDATE statements that answer, move and edit one session
-- (backend/internal/store/db/coaching.sql.go). Each is a guard and a change of the row.
use dating_coach.Base.{
  ℕ, ◌+◌, Bool, true, not, Option, none, some, String, leb, text_eq, ◌&&◌, ◌||◌, if◌then◌else◌,
}
use dating_coach.Store.Status.{
  Status, pending, scheduled, declined, cancelled, PaymentStatus, paid, authorized, releasing,
  refund_due, status_eq, payment_eq,
}
use dating_coach.Store.Rows.{CoachingSession, Time}
use dating_coach.Store.Table.{
  Rows, Write, written, slot_conflict, no_row, find_row, put_row, conflicts_in, update_one,
}

-- respond_by IS NULL OR respond_by >= now()
abbrev pub within_deadline : Option Time → Time → Bool
within_deadline none now = true
within_deadline (some d) now = leb now d

unfoldable pub answerable : Time → CoachingSession → Bool
answerable now r = status_eq r.status pending && within_deadline r.respond_by now

unfoldable pub confirmed_row : Time → CoachingSession → CoachingSession
confirmed_row now r = record r {
  status = scheduled;
  confirmed_at = some now;
  confirmation_token = none;
  respond_by = none;
  calendar_sequence = r.calendar_sequence + 1;
  updated_at = now;
}

unfoldable pub confirm_session : ℕ → Time → Rows → Option CoachingSession × Rows
confirm_session i now rows = update_one i (answerable now) (confirmed_row now) rows

-- The CASE on payment_status in DeclineSession and ExpirePendingSessions: a held card is released,
-- a captured payment is owed back.
abbrev pub given_back : PaymentStatus → PaymentStatus
given_back authorized = releasing
given_back paid = refund_due
given_back p = p

unfoldable pub declined_row : Time → CoachingSession → CoachingSession
declined_row now r = record r {
  status = declined;
  payment_status = given_back r.payment_status;
  confirmation_token = none;
  respond_by = none;
  calendar_sequence = r.calendar_sequence + 1;
  updated_at = now;
}

unfoldable pub decline_session : ℕ → Time → Rows → Option CoachingSession × Rows
decline_session i now rows = update_one i (answerable now) (declined_row now) rows

unfoldable pub status_row : Status → Time → CoachingSession → CoachingSession
status_row target now r = record r {
  status = target;
  payment_status =
      if status_eq target cancelled && payment_eq r.payment_status authorized
      then releasing
      else r.payment_status;
  calendar_sequence = r.calendar_sequence + 1;
  updated_at = now;
}

unfoldable pub update_session_status :
    ℕ → Status → Status → Time → Rows → Option CoachingSession × Rows
update_session_status i target expected now rows =
    update_one i (λ r. status_eq r.status expected) (status_row target now) rows

pub record RescheduleParams : Type 0 where
  pub id : ℕ
  pub scheduled_time : Time
  pub status : Status
  pub confirmation_token : Option String
  pub respond_by : Option Time
  pub expected_status : Status

unfoldable pub moved_row : RescheduleParams → Time → CoachingSession → CoachingSession
moved_row p now r = record r {
  scheduled_time = p.scheduled_time;
  status = p.status;
  confirmation_token = p.confirmation_token;
  respond_by = p.respond_by;
  confirmed_at = if status_eq p.status scheduled then r.confirmed_at else none;
  calendar_sequence = r.calendar_sequence + 1;
  updated_at = now;
}

-- A write of one row that the exclusion constraint can refuse.
unfoldable pub write_one :
    ℕ → (CoachingSession → Bool) → (CoachingSession → CoachingSession) → Rows → Write
write_one i guard change rows = elim (find_row i rows) [
  | none ↦ no_row
  | some r ↦
      if guard r
      then (if conflicts_in i (change r) rows
          then slot_conflict
          else written (change r) (put_row i (change r) rows))
      else no_row
]

unfoldable pub reschedule_session : RescheduleParams → Time → Rows → Write
reschedule_session p now rows =
    write_one p.id (λ r. status_eq r.status p.expected_status) (moved_row p now) rows

unfoldable pub noted_row : String → Time → CoachingSession → CoachingSession
noted_row notes now r = record r { coach_notes = notes; updated_at = now }

unfoldable pub update_session_notes : ℕ → String → Time → Rows → Option CoachingSession × Rows
update_session_notes i notes now rows = update_one i (λ r. true) (noted_row notes now) rows

unfoldable pub linkable : String → CoachingSession → Bool
linkable url r =
    (status_eq r.status pending || status_eq r.status scheduled) && not (text_eq r.meeting_url url)

unfoldable pub linked_row : String → Time → CoachingSession → CoachingSession
linked_row url now r = record r {
  meeting_url = url;
  calendar_sequence = r.calendar_sequence + 1;
  updated_at = now;
}

unfoldable pub update_session_meeting_url : ℕ → String → Time → Rows → Option CoachingSession × Rows
update_session_meeting_url i url now rows = update_one i (linkable url) (linked_row url now) rows
