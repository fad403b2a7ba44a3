-- ===== src/Notify/Due.antt =====
-- What a pass of the email relay leaves (Drain of backend/internal/notify/outbox.go).
use dating_coach.Base.{
  ℕ, ◌≤◌, ◌<◌, Bool, true, false, not, ◌&&◌, ◌||◌, ◌≡◌, refl, ◌∙◌, arith, Option, none, some, inl,
  inr, [], ◌∷◌, String, ◌==◌, ==-refl, any, any-select, any-sort_by, length-sort_by, take_all, All,
  All-map, each_is_found, length, select, sort_by, Bool-cases,
}
use dating_coach.Store.Rows.{Time}
use dating_coach.Store.Outbox.{
  EmailRow, Emails, pending_emails, due_email, mark_email_failed, failed_email, mark_email_sent,
  sent_email,
}
use dating_coach.Notify.Backoff.{max_attempts, retry_delay, delay_is_positive}
use dating_coach.Notify.Relay.{MailEnv, relay_batch, record_attempt, attempt_all, drain}

-- A row that is due is in the rest of the batch.
abbrev IsAhead : Time → Emails → EmailRow → Type 0
IsAhead now pending e =
    (not (due_email max_attempts now e) || any (λ (r : EmailRow). r.id == e.id) pending) ≡ true

sent-IsAhead :
    (row : EmailRow) (now : Time) (pending rows : Emails)
    → All (IsAhead now (row ∷ pending)) rows
    → All (IsAhead now pending) (mark_email_sent row.id now rows)
unfolding mark_email_sent sent_email due_email
sent-IsAhead row now pending [] h = tt
sent-IsAhead row now pending (e ∷ rows) h =
    let rest = sent-IsAhead row now pending rows h.1 in let k = h.0 in (ground (arith, k), rest)

failed-IsAhead :
    (row : EmailRow) (error : String) (delay now : Time) (pending rows : Emails)
    → 0 < delay
    → All (IsAhead now (row ∷ pending)) rows
    → All (IsAhead now pending) (mark_email_failed row.id error delay now rows)
unfolding mark_email_failed failed_email due_email
failed-IsAhead row error delay now pending [] l h = tt
failed-IsAhead row error delay now pending (e ∷ rows) l h =
    let rest = failed-IsAhead row error delay now pending rows l h.1 in
    let k = h.0 in (ground (arith, k, l), rest)

attempt-IsAhead :
    (env : MailEnv) (row : EmailRow) (o : Option String) (pending rows : Emails)
    → All (IsAhead env.now (row ∷ pending)) rows
    → All (IsAhead env.now pending) (record_attempt env row o rows)
unfolding record_attempt
attempt-IsAhead env row none pending rows h = sent-IsAhead row env.now pending rows h
attempt-IsAhead env row (some error) pending rows h =
    failed-IsAhead row error (retry_delay row.attempts) env.now pending rows
      (delay_is_positive row.attempts) h

attempt_all-not_due :
    (env : MailEnv) (pending rows : Emails)
    → ((row : EmailRow) → env.records row ≡ true)
    → All (IsAhead env.now pending) rows
    → All (λ e. due_email max_attempts env.now e ≡ false) (attempt_all env pending rows)
unfolding attempt_all
attempt_all-not_due env [] rows r h = All-map (λ e k. ground (arith, k)) rows h
attempt_all-not_due env (row ∷ pending) rows r h = simp (r row) (
    attempt_all-not_due env pending (record_attempt env row (env.refuses row) rows) r
      (attempt-IsAhead env row (env.refuses row) pending rows h))

ahead :
    (rows : Emails) (now : Time) (i : ℕ)
    → length (select (due_email max_attempts now) rows) ≤ relay_batch
    → any (λ (r : EmailRow). r.id == i) (pending_emails relay_batch max_attempts now rows)
      ≡ any (λ (e : EmailRow). due_email max_attempts now e && e.id == i) rows
unfolding pending_emails
ahead rows now i l =
    let due = select (due_email max_attempts now) rows in
    let key : EmailRow → ℕ = λ e. e.next_attempt_at in
    let q : length (sort_by key due) ≤ relay_batch = rw (length-sort_by key due) l in
    rw (take_all relay_batch (sort_by key due) q) (
      any-sort_by key (λ (e : EmailRow). e.id == i) due
      ∙ any-select (λ (e : EmailRow). e.id == i) (due_email max_attempts now) rows)

found-IsAhead :
    (rows : Emails) (now : Time) (e : EmailRow)
    → length (select (due_email max_attempts now) rows) ≤ relay_batch
    → ((p : EmailRow → Bool) → p e ≡ true → any p rows ≡ true)
    → IsAhead now (pending_emails relay_batch max_attempts now rows) e
found-IsAhead rows now e l k = elim (Bool-cases (due_email max_attempts now e)) [
  | inr n ↦ rw n refl
  | inl n ↦
      let q = k (λ r. due_email max_attempts now r && r.id == e.id) (rw n (==-refl e.id)) in
      rw n (ahead rows now e.id l ∙ q)
]

-- When at most one batch of 100 emails is due and every attempt is recorded, a pass of the relay leaves
-- no email due at that time, whatever the mail server refuses: each one is marked sent, or its next
-- attempt lies in the future, or it has used up its 32 attempts.
pub drain_leaves_none_due :
    (env : MailEnv) (rows : Emails)
    → ((row : EmailRow) → env.records row ≡ true)
    → length (select (due_email max_attempts env.now) rows) ≤ relay_batch
    → All (λ e. due_email max_attempts env.now e ≡ false) (drain env rows)
unfolding drain
drain_leaves_none_due env rows r l =
    attempt_all-not_due env (pending_emails relay_batch max_attempts env.now rows) rows r
      (All-map (λ e k. found-IsAhead rows env.now e l k) rows (each_is_found rows))
