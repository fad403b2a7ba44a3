-- ===== src/Store/Rows.antt =====
-- Rows of the tables the coaching service uses (backend/internal/store/db/models.go). An identifier
-- is a number, since the code only compares uuids; an instant is a number of nanoseconds.
use dating_coach.Base.{ℕ, ◌+◌, ◌*◌, Bool, ◌&&◌, Option, String, ltb, ◌==◌}
use dating_coach.Store.Status.{Status, PaymentStatus, holds_slot}

abbrev pub Time : Type 0
Time = ℕ

abbrev pub minute : ℕ
minute = 60000000000

abbrev pub hour : ℕ
hour = 60 * minute

pub record CoachingSession : Type 0 where
  pub id : ℕ
  pub user_id : ℕ
  pub coach_id : ℕ
  pub scheduled_time : Time
  pub duration_minutes : ℕ
  pub status : Status
  pub topic : String
  pub coach_notes : String
  pub created_at : Time
  pub updated_at : Time
  pub confirmation_token : Option String
  pub respond_by : Option Time
  pub confirmed_at : Option Time
  pub calendar_sequence : ℕ
  pub payment_status : PaymentStatus
  pub amount_cents : ℕ
  pub currency : String
  pub payment_ref : Option String
  pub hold_expires_at : Option Time
  pub meeting_url : String

pub data ApprovalStatus : Type 0 where
  approval_pending approval_approved approval_rejected : ApprovalStatus

-- The columns of `coaches` joined with `users` that the booking flow reads.
pub record CoachRow : Type 0 where
  pub user_id : ℕ
  pub display_name : String
  pub email : String
  pub hourly_rate_cents : ℕ
  pub timezone : String
  pub accepting_clients : Bool
  pub approval_status : ApprovalStatus

pub record UserRow : Type 0 where
  pub id : ℕ
  pub email : String
  pub display_name : String
  pub deleted_at : Option Time

pub record AvailabilityRow : Type 0 where
  pub coach_id : ℕ
  pub weekday : ℕ
  pub start_minute : ℕ
  pub end_minute : ℕ

pub record PaymentEventRow : Type 0 where
  pub provider_event_id : String
  pub session_id : ℕ

-- When a session ends: the upper end of `session_range`.
abbrev pub session_end : Time → ℕ → Time
session_end start minutes = start + minutes * minute

-- Two half-open ranges share an instant.
abbrev pub ranges_overlap : Time → Time → Time → Time → Bool
ranges_overlap a a_end b b_end = ltb a b_end && ltb b a_end

-- The exclusion constraint `coaching_sessions_no_overlap` on one pair of rows.
abbrev pub conflict : CoachingSession → CoachingSession → Bool
conflict r s =
    r.coach_id == s.coach_id
    && holds_slot r.status
    && holds_slot s.status
    && ranges_overlap r.scheduled_time (session_end r.scheduled_time r.duration_minutes)
        s.scheduled_time (session_end s.scheduled_time s.duration_minutes)
