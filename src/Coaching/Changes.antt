-- ===== src/Coaching/Changes.antt =====
-- SetStatus, Reschedule, SetNotes and SetMeetingURL of backend/internal/coaching/service.go: what a
-- participant may do to a session. `session` is the row as it was read before the transaction.
pub mod Moves
pub mod Retry
pub mod Transition
use dating_coach.Base.{
  ℕ, zero, suc, Bool, true, false, not, Option, none, some, String, ltb, ◌==◌, ◌||◌, if◌then◌else◌,
}
use dating_coach.Store.Status.{
  Status, pending_payment, pending, scheduled, completed, cancelled, no_show, status_eq,
}
use dating_coach.Store.Rows.{CoachingSession, Time}
use dating_coach.Store.Table.{Rows, find_row}
use dating_coach.Store.Updates.{
  RescheduleParams, update_session_status, reschedule_session, update_session_notes,
  update_session_meeting_url,
}
use dating_coach.Store.Payments.{release_pending_payment_session}
use dating_coach.Coaching.Clock.{respond_deadline}
use dating_coach.Coaching.World.{
  Service, Env, Tx, not_found, forbidden, invalid_input, internal, ok, participant, guard, required,
  fail, pure, query_one, query_write, set_sessions, transaction, ◌>>=◌, ◌>>◌,
}
use dating_coach.Coaching.Mail.{
  get_session_parties, mail_cancelled, mail_self_calendar_update, mail_coach_request,
  mail_coach_rescheduled, mail_meeting_link_changed,
}
use dating_coach.Coaching.Slots.{check_bookable}

-- statusTransitions
unfoldable pub may_become : Status → Status → Bool
may_become pending_payment cancelled = true
may_become pending cancelled = true
may_become scheduled completed = true
may_become scheduled cancelled = true
may_become scheduled no_show = true
may_become _ _ = false

-- coachOnlyStatuses
abbrev pub coach_only : Status → Bool
coach_only s = status_eq s completed || status_eq s no_show

unfoldable pub notify_cancelled : ℕ → Bool → Status → Tx (Unit {0})
unfolding get_session_parties mail_cancelled mail_self_calendar_update
notify_cancelled i by_coach was = do
  parties ← get_session_parties i
  mail_cancelled parties by_coach
  if by_coach || status_eq was scheduled
      then mail_self_calendar_update parties by_coach
      else pure tt

-- The transaction of SetStatus.
unfoldable pub move_status : Env → CoachingSession → Bool → Status → Tx CoachingSession
move_status env session by_coach status = do
  updated ←
      query_one (update_session_status session.id status session.status env.db_now) invalid_input
  if status_eq status cancelled
      then notify_cancelled session.id by_coach session.status
      else pure tt
  pure updated

-- ReleasePendingPaymentSession, with the request that follows where the row is no longer a hold.
abbrev pub or_retry : Option CoachingSession × Rows → Tx CoachingSession → Tx CoachingSession
or_retry (none, rows) retry w = retry w
or_retry (some r, rows) retry w = (ok r, set_sessions w rows)

-- A hold is released outside a transaction; every other session moves in one.
unfoldable pub apply_status :
    Env → Tx CoachingSession → CoachingSession → ℕ → Status → Tx CoachingSession
apply_status env retry session actor_id status w =
    if status_eq session.status pending_payment
    then or_retry (release_pending_payment_session session.id env.db_now w.db.sessions) retry w
    else transaction env (move_status env session (actor_id == session.coach_id) status) w

unfoldable pub change_status :
    Env → Tx CoachingSession → CoachingSession → ℕ → Status → Tx CoachingSession
change_status env retry session actor_id status = do
  guard (may_become session.status status) invalid_input
  guard (if coach_only status then actor_id == session.coach_id else true) forbidden
  apply_status env retry session actor_id status

-- The call that SetStatus makes of itself, on fuel.
unfoldable pub set_status : ℕ → Env → ℕ → ℕ → Status → Tx CoachingSession
set_status zero env session_id actor_id status = fail internal
set_status (suc fuel) env session_id actor_id status =
    let retry = set_status fuel env session_id actor_id status in
    do session ← participant session_id actor_id; change_status env retry session actor_id status

abbrev pub is_movable : Status → Bool
is_movable s = status_eq s pending || status_eq s scheduled

-- The parameters of RescheduleSession: a coach's move keeps what the snapshot held; a client's move
-- asks the coach again, under the new token.
unfoldable pub move_params :
    Service → Env → CoachingSession → Bool → Time → String → RescheduleParams
move_params svc env session by_coach start token = record {
  id = session.id;
  scheduled_time = start;
  status = if by_coach then session.status else pending;
  confirmation_token = if by_coach then session.confirmation_token else some (svc.hash_token token);
  respond_by = if by_coach then session.respond_by else some (respond_deadline env.now start);
  expected_status = session.status;
}

unfoldable pub notify_moved : ℕ → Bool → String → Tx (Unit {0})
unfolding get_session_parties mail_coach_rescheduled mail_self_calendar_update mail_coach_request
notify_moved i by_coach token = do
  parties ← get_session_parties i
  elim by_coach [
    | true ↦ (do mail_coach_rescheduled parties; mail_self_calendar_update parties true)
    | false ↦ mail_coach_request parties token true
  ]

-- The transaction of Reschedule.
unfoldable pub move_session :
    Service → Env → CoachingSession → Bool → Time → String → Tx CoachingSession
move_session svc env session by_coach start token = do
  updated ←
      query_write (reschedule_session (move_params svc env session by_coach start token) env.db_now)
        invalid_input
  notify_moved session.id by_coach token
  pure updated

-- From the checks on; a coach's move draws no token.
unfoldable pub reschedule_from : Service → Env → CoachingSession → ℕ → Time → Tx CoachingSession
reschedule_from svc env session actor_id start = do
  let by_coach = actor_id == session.coach_id
  guard (is_movable session.status) invalid_input
  check_bookable svc session.coach_id start session.duration_minutes false (some session.id)
  token ← required (if by_coach then some "" else env.random_token) internal
  transaction env (move_session svc env session by_coach start token)

-- `parsed` is the parsed time; none stands for a text that is no RFC 3339 time.
unfoldable pub reschedule : Service → Env → ℕ → ℕ → Option Time → Tx CoachingSession
reschedule svc env session_id actor_id parsed = do
  start ← required parsed invalid_input
  guard (not (ltb start env.now)) invalid_input
  session ← participant session_id actor_id
  reschedule_from svc env session actor_id start

unfoldable pub set_notes : Env → ℕ → ℕ → String → Tx CoachingSession
set_notes env session_id coach_id notes = do
  session ← participant session_id coach_id
  guard (session.coach_id == coach_id) forbidden
  query_one (update_session_notes session_id notes env.db_now) internal

-- No row matched: a terminal status is refused, a value already stored is reported. Nothing is
-- written, so that the transaction need not commit.
abbrev pub relink : ℕ → Tx CoachingSession
relink i = do
  current ← λ w. required (find_row i w.db.sessions) not_found w
  guard (is_movable current.status) invalid_input
  pure current

unfoldable pub notify_linked : CoachingSession → Tx (Unit {0})
unfolding get_session_parties mail_meeting_link_changed
notify_linked updated =
    if status_eq updated.status scheduled
    then (do
      parties ← get_session_parties updated.id
      mail_meeting_link_changed parties false
      mail_meeting_link_changed parties true)
    else pure tt

unfoldable pub link_session : Env → ℕ → String → Tx CoachingSession
link_session env i url = do
  updated ← query_one (update_session_meeting_url i url env.db_now) invalid_input
  notify_linked updated
  pure updated

abbrev pub linked_or_relink : Env → ℕ → String → Option CoachingSession → Tx CoachingSession
linked_or_relink env i url none = relink i
linked_or_relink env i url (some r) = transaction env (link_session env i url)

-- `url` is what normaliseMeetingURL made of the text; none stands for a refused one.
unfoldable pub set_meeting_url : Env → ℕ → ℕ → Option String → Tx CoachingSession
set_meeting_url env session_id coach_id url = do
  link ← required url invalid_input
  session ← participant session_id coach_id
  guard (session.coach_id == coach_id) forbidden
  guard (is_movable session.status) invalid_input
  λ w.
      linked_or_relink env session_id link
        (update_session_meeting_url session_id link env.db_now w.db.sessions).0 w
