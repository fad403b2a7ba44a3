-- ===== src/Coaching/Answers.antt =====
-- RespondWithToken, RespondAsCoach, respond, whyNotPending and capture of
-- backend/internal/coaching/service.go and payment.go: a coach answers a pending request. The
-- session that is passed on was read before the transaction, and may be stale.
pub mod Charge
pub mod Answered
pub mod Once
use dating_coach.Base.{
  ℕ, Bool, true, false, Option, none, some, String, ◌==◌, text_eq, not, if◌then◌else◌,
}
use dating_coach.Store.Status.{pending, authorized, paid, status_eq, payment_eq}
use dating_coach.Store.Rows.{CoachingSession, Time}
use dating_coach.Store.Table.{Rows, find_row}
use dating_coach.Store.Updates.{confirm_session, decline_session}
use dating_coach.Store.Payments.{mark_session_captured, has_ref}
use dating_coach.Store.Sweeps.{before}
use dating_coach.Coaching.World.{
  Service, Env, Tx, Error, not_found, forbidden, invalid_input, expired_request, payment_failed,
  captured, participant, guard, required, pure, call, exec, query_one, transaction, ◌>>=◌, ◌>>◌,
}
use dating_coach.Coaching.Mail.{
  get_session_parties, mail_client_confirmed, mail_client_declined, mail_coach_calendar_update,
}

-- The `action` text of a request; every other text is `other_action`.
pub data Action : Type 0 where
  confirm decline other_action : Action

abbrev pub is_answer : Action → Bool
is_answer confirm = true
is_answer decline = true
is_answer other_action = false

abbrev pub if_confirm : {A : Type 0} → Action → A → A → A
if_confirm confirm x y = x
if_confirm decline x y = y
if_confirm other_action x y = y

unfoldable pub why_not_pending : ℕ → Rows → Error
why_not_pending i rows = elim (find_row i rows) [
  | none ↦ invalid_input
  | some current ↦ if status_eq current.status pending then expired_request else invalid_input
]

unfoldable pub capture : Service → Env → CoachingSession → Tx (Unit {0})
capture svc env session = do
  ref ← required session.payment_ref payment_failed
  call (λ calls. svc.payments.capture calls ref session.id) (captured ref session.id) payment_failed
  exec (mark_session_captured session.id env.db_now)

-- The conditional UPDATE; no row is explained by a read of the committed rows.
unfoldable pub answer_statement : Action → Time → ℕ → Tx CoachingSession
answer_statement action now i w =
    query_one (if_confirm action (confirm_session i now) (decline_session i now))
      (why_not_pending i w.db.sessions) w

-- A card that is only held is charged before the confirmation commits.
unfoldable pub settle_payment : Service → Env → Action → CoachingSession → Tx CoachingSession
settle_payment svc env action updated =
    if if_confirm action (payment_eq updated.payment_status authorized) false
    then (do capture svc env updated; pure (record updated { payment_status = paid }))
    else pure updated

unfoldable pub notify_answer : Action → ℕ → Tx (Unit {0})
unfolding get_session_parties mail_client_confirmed mail_client_declined mail_coach_calendar_update
notify_answer action i = do
  parties ← get_session_parties i
  if_confirm action (mail_client_confirmed parties) (mail_client_declined parties)
  mail_coach_calendar_update parties

unfoldable pub answer : Service → Env → ℕ → Action → Tx CoachingSession
answer svc env i action = do
  updated ← answer_statement action env.db_now i
  settled ← settle_payment svc env action updated
  notify_answer action i
  pure settled

unfoldable pub respond : Service → Env → CoachingSession → Action → Tx CoachingSession
respond svc env session action = do
  guard (is_answer action) invalid_input
  guard (status_eq session.status pending) invalid_input
  guard (not (before session.respond_by env.now)) expired_request
  transaction env (answer svc env session.id action)

-- GetSessionByConfirmationToken
unfoldable pub find_by_token : ℕ → String → Rows → Option CoachingSession
find_by_token i token_hash rows = elim (find_row i rows) [
  | none ↦ none
  | some r ↦ if has_ref token_hash r.confirmation_token then some r else none
]

unfoldable pub respond_with_token : Service → Env → ℕ → String → Action → Tx CoachingSession
respond_with_token svc env session_id token action = do
  guard (not (text_eq token "")) invalid_input
  session ←
      λ w. required (find_by_token session_id (svc.hash_token token) w.db.sessions) not_found w
  respond svc env session action

unfoldable pub respond_as_coach : Service → Env → ℕ → ℕ → Action → Tx CoachingSession
respond_as_coach svc env session_id coach_id action = do
  session ← participant session_id coach_id
  guard (session.coach_id == coach_id) forbidden
  respond svc env session action
