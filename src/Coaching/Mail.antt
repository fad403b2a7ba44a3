-- ===== src/Coaching/Mail.antt =====
-- backend/internal/coaching/emails.go and ics.go: which email goes to whom, with which invite. The
-- wording of subjects and bodies is not modelled.
use dating_coach.Base.{ℕ, Bool, Option, none, some, ◌++◌, [], ◌∷◌, String, if◌then◌else◌, text_eq}
use dating_coach.Store.Status.{Status, pending, scheduled, declined, expired, cancelled, status_eq}
use dating_coach.Store.Rows.{CoachingSession, session_end}
use dating_coach.Store.Table.{find_row}
use dating_coach.Coaching.World.{
  Invite, InviteMethod, request, cancel, EventStatus, tentative, event_confirmed, event_cancelled,
  MailKind, coach_request, client_requested, client_confirmed, client_declined, client_expired,
  coach_confirmed, coach_declined, coach_expired, cancelled_by_coach, cancelled_by_client,
  coach_rescheduled, OutboxMail, self_cancelled, self_moved, link_removed, link_changed, Tx,
  required, internal, ok, pure, find_coach, find_user, ◌>>=◌,
}

-- GetSessionPartiesRow
pub record Parties : Type 0 where
  pub session : CoachingSession
  pub user_email : String
  pub user_name : String
  pub coach_email : String
  pub coach_name : String

unfoldable pub get_session_parties : ℕ → Tx Parties
unfolding find_row find_coach find_user
get_session_parties i = do
  session ← λ w. required (find_row i w.db.sessions) internal w
  user ← λ w. required (find_user session.user_id w.db.users) internal w
  coach ← λ w. required (find_coach session.coach_id w.db.coaches) internal w
  pure (record {
    session = session;
    user_email = user.email;
    user_name = user.display_name;
    coach_email = coach.email;
    coach_name = coach.display_name;
  })

abbrev pub invite_method : Status → InviteMethod
invite_method scheduled = request
invite_method pending = request
invite_method _ = cancel

abbrev pub invite_status : Status → EventStatus
invite_status scheduled = event_confirmed
invite_status pending = tentative
invite_status _ = event_cancelled

unfoldable pub invite : CoachingSession → Invite
invite s = record {
  method = invite_method s.status;
  event_status = invite_status s.status;
  sequence = s.calendar_sequence;
  starts = s.scheduled_time;
  ends = session_end s.scheduled_time s.duration_minutes;
  location = s.meeting_url;
}

unfoldable pub enqueue : String → MailKind → ℕ → Option Invite → Tx (Unit {0})
enqueue address kind session_id ics w =
    let mail : OutboxMail = record {
      to_email = address;
      kind = kind;
      session_id = session_id;
      ics = ics;
    } in
    (ok tt, record w { db = record (w.db) { outbox = w.db.outbox ++ (mail ∷ []) } })

abbrev send_to_coach : Parties → MailKind → Tx (Unit {0})
unfolding enqueue invite
send_to_coach p kind = enqueue p.coach_email kind p.session.id (some (invite p.session))

abbrev send_to_client : Parties → MailKind → Tx (Unit {0})
unfolding enqueue invite
send_to_client p kind = enqueue p.user_email kind p.session.id (some (invite p.session))

abbrev send_to : Bool → Parties → MailKind → Tx (Unit {0})
unfolding send_to_coach send_to_client
send_to coach p kind = if coach then send_to_coach p kind else send_to_client p kind

unfoldable pub mail_coach_request : Parties → String → Bool → Tx (Unit {0})
unfolding send_to_coach
mail_coach_request p token rescheduled = send_to_coach p (coach_request rescheduled token)

unfoldable pub mail_client_requested : Parties → Tx (Unit {0})
unfolding enqueue
mail_client_requested p = enqueue p.user_email client_requested p.session.id none

unfoldable pub mail_client_confirmed : Parties → Tx (Unit {0})
unfolding send_to_client
mail_client_confirmed p = send_to_client p client_confirmed

unfoldable pub mail_client_declined : Parties → Tx (Unit {0})
unfolding send_to_client
mail_client_declined p = send_to_client p client_declined

unfoldable pub mail_client_expired : Parties → Tx (Unit {0})
unfolding send_to_client
mail_client_expired p = send_to_client p client_expired

abbrev coach_update : Status → Option MailKind
coach_update scheduled = some coach_confirmed
coach_update declined = some coach_declined
coach_update expired = some coach_expired
coach_update _ = none

unfoldable pub mail_coach_calendar_update : Parties → Tx (Unit {0})
unfolding send_to_coach
mail_coach_calendar_update p = elim (coach_update p.session.status) [
  | none ↦ pure tt
  | some kind ↦ send_to_coach p kind
]

unfoldable pub mail_cancelled : Parties → Bool → Tx (Unit {0})
unfolding enqueue send_to_coach send_to_client
mail_cancelled p by_coach =
    if by_coach then send_to_client p cancelled_by_coach else send_to_coach p cancelled_by_client

unfoldable pub mail_self_calendar_update : Parties → Bool → Tx (Unit {0})
unfolding send_to
mail_self_calendar_update p to_coach =
    send_to to_coach p (
      if status_eq p.session.status cancelled then self_cancelled to_coach else self_moved to_coach)

unfoldable pub mail_coach_rescheduled : Parties → Tx (Unit {0})
unfolding send_to_client
mail_coach_rescheduled p = send_to_client p coach_rescheduled

unfoldable pub mail_meeting_link_changed : Parties → Bool → Tx (Unit {0})
unfolding send_to
mail_meeting_link_changed p to_coach =
    send_to to_coach p
      (if text_eq p.session.meeting_url "" then link_removed to_coach else link_changed to_coach)
