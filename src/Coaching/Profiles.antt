-- ===== src/Coaching/Profiles.antt =====
-- UpsertProfile, SetCoachApproval and what they answer by GetCoach, without the averages of reviews
-- (backend/internal/coaching/service.go). A negative rate is refused before the model begins.
pub mod Approval
pub mod Origin
use dating_coach.Base.{
  ℕ, Bool, true, false, not, ◌&&◌, Option, none, some, List, [], ◌∷◌, String, text_eq, ltb,
  find_first, if◌then◌else◌,
}
use dating_coach.Base.Outcomes.{
  Outcome, done, failed, Run, bind, ◌>>=◌, ◌>>◌, give, check, demand, query,
}
use dating_coach.Store.Rows.{
  Time, UserRow, ApprovalStatus, approval_pending, approval_approved, approval_rejected,
}
use dating_coach.Store.Coaches.{
  Coach, Coaches, UpsertCoachProfile, has_user, upsert_coach_profile, set_coach_approval,
}
use dating_coach.Auth.World.{AuthService, address}
use dating_coach.Auth.Profiles.{normalise_choices, dating_phases}
use dating_coach.Coaching.Clock.{max_hourly_rate_cents}
use dating_coach.Coaching.World.{Service, Error, not_found, invalid_input, internal, find_user}

pub record CoachesState : Type 0 where
  pub users : List UserRow
  pub coaches : Coaches

-- What GetCoach joins.
pub record CoachView : Type 0 where
  pub row : Coach
  pub display_name : String

abbrev pub CoachesRun : Type 0 → Type 0
CoachesRun A = Run CoachesState Error A

unfoldable pub get_coach : ℕ → CoachesRun CoachView
get_coach i = do
  row ← query (λ s. find_first (has_user i) s.coaches) not_found
  user ← query (λ s. find_user i s.users) not_found
  give (record { row = row; display_name = user.display_name })

abbrev pub stored_coach : Option Coach × Coaches → Error → CoachesRun Coach
stored_coach (none, coaches) e s = (failed e, record s { coaches = coaches })
stored_coach (some c, coaches) e s = (done c, record s { coaches = coaches })

-- normalisePhases: the loops of normaliseChoices.
abbrev pub normalise_phases : AuthService → List String → Option (List String)
normalise_phases texts phases = normalise_choices texts phases dating_phases

abbrev pub or_utc : String → String
or_utc t = if text_eq t "" then "UTC" else t

abbrev pub exists : {A : Type 0} → Option A → Bool
exists none = false
exists (some a) = true

abbrev pub with_phases : UpsertCoachProfile → List String → UpsertCoachProfile
with_phases input phases = record input { timezone = or_utc input.timezone; phases = phases }

unfoldable pub upsert_profile :
    Service → AuthService → Time → UpsertCoachProfile → CoachesRun CoachView
upsert_profile svc texts now input = do
  zone ← demand (svc.load_location (or_utc input.timezone)) invalid_input
  check (not (svc.payments.enabled && ltb max_hourly_rate_cents input.hourly_rate_cents))
      invalid_input
  phases ← demand (normalise_phases texts input.phases) invalid_input
  row ← λ s.
      stored_coach
        (upsert_coach_profile (with_phases input phases) now
          (exists (find_user input.user_id s.users)) s.coaches)
        internal s
  get_coach row.user_id

abbrev pub valid_approval_status : AuthService → String → Option ApprovalStatus
valid_approval_status texts t =
    if text_eq (address texts t) "pending"
    then some approval_pending
    else (if text_eq (address texts t) "approved"
        then some approval_approved
        else (if text_eq (address texts t) "rejected" then some approval_rejected else none))

unfoldable pub decide_coach : AuthService → Time → ℕ → String → CoachesRun CoachView
decide_coach texts now i text = do
  status ← demand (valid_approval_status texts text) invalid_input
  row ← λ s. stored_coach (set_coach_approval i status now s.coaches) not_found s
  view ← get_coach row.user_id
  give (record view { row = record (view.row) { approval_status = row.approval_status } })
