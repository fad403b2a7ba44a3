-- ===== src/Notify/Relay.antt =====
-- Drain of backend/internal/notify/outbox.go.
use dating_coach.Base.{ℕ, Bool, Option, none, some, [], ◌∷◌, String, if◌then◌else◌}
use dating_coach.Store.Rows.{Time}
use dating_coach.Store.Outbox.{EmailRow, Emails, pending_emails, mark_email_failed, mark_email_sent}
use dating_coach.Notify.Backoff.{max_attempts, retry_delay}

abbrev pub relay_batch : ℕ
relay_batch = 100

-- `refuses` is the error of the notifier for a row, none when it sends; `records` is whether the
-- statement that records the attempt succeeds.
pub record MailEnv : Type 0 where
  pub now : Time
  pub refuses : EmailRow → Option String
  pub records : EmailRow → Bool

unfoldable pub record_attempt : MailEnv → EmailRow → Option String → Emails → Emails
record_attempt env row none rows = mark_email_sent row.id env.now rows
record_attempt env row (some error) rows =
    mark_email_failed row.id error (retry_delay row.attempts) env.now rows

-- Only a failure of the database stops the pass.
unfoldable pub attempt_all : MailEnv → Emails → Emails → Emails
attempt_all env [] rows = rows
attempt_all env (row ∷ pending) rows =
    let rest = attempt_all env pending (record_attempt env row (env.refuses row) rows) in
    if env.records row then rest else rows

unfoldable pub drain : MailEnv → Emails → Emails
drain env rows = attempt_all env (pending_emails relay_batch max_attempts env.now rows) rows
