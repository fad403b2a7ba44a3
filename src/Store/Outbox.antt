-- ===== src/Store/Outbox.antt =====
-- The statements on `email_outbox` (backend/internal/store/db/email_outbox.sql.go).
use dating_coach.Base.{
  ℕ, ◌+◌, Bool, Option, none, some, List, ◌∷◌, String, ◌==◌, ◌&&◌, ltb, leb, length, select, take,
  sort_by, update_where,
}
use dating_coach.Store.Rows.{Time}
use dating_coach.Store.Users.{is_live}

pub record EmailRow : Type 0 where
  pub id : ℕ
  pub to_email : String
  pub subject : String
  pub body : String
  pub ics : Option String
  pub attempts : ℕ
  pub last_error : String
  pub next_attempt_at : Time
  pub created_at : Time
  pub sent_at : Option Time

abbrev pub Emails : Type 0
Emails = List EmailRow

-- The columns that EnqueueEmail leaves to their defaults are those of the migration.
unfoldable pub enqueue_email : ℕ → Time → String → String → String → Option String → Emails → Emails
enqueue_email id now to_email subject body ics rows =
    record {
      id = id;
      to_email = to_email;
      subject = subject;
      body = body;
      ics = ics;
      attempts = 0;
      last_error = "";
      next_attempt_at = now;
      created_at = now;
      sent_at = none;
    }
    ∷ rows

abbrev pub unsent : ℕ → EmailRow → Bool
unsent i e = e.id == i && is_live e.sent_at

unfoldable pub failed_email : String → Time → Time → EmailRow → EmailRow
failed_email error retry_after now e = record e {
  attempts = e.attempts + 1;
  last_error = error;
  next_attempt_at = now + retry_after;
}

unfoldable pub mark_email_failed : ℕ → String → Time → Time → Emails → Emails
mark_email_failed i error retry_after now rows =
    update_where (unsent i) (failed_email error retry_after now) rows

unfoldable pub sent_email : Time → EmailRow → EmailRow
sent_email now e = record e { sent_at = some now; attempts = e.attempts + 1; last_error = "" }

unfoldable pub mark_email_sent : ℕ → Time → Emails → Emails
mark_email_sent i now rows = update_where (unsent i) (sent_email now) rows

unfoldable pub due_email : ℕ → Time → EmailRow → Bool
due_email limit now e = is_live e.sent_at && ltb e.attempts limit && leb e.next_attempt_at now

unfoldable pub pending_emails : ℕ → ℕ → Time → Emails → Emails
pending_emails limit attempts now rows =
    take limit (sort_by (λ e. e.next_attempt_at) (select (due_email attempts now) rows))

unfoldable pub count_exhausted_emails : ℕ → Emails → ℕ
count_exhausted_emails attempts rows =
    length (select (λ e. is_live e.sent_at && leb attempts e.attempts) rows)
