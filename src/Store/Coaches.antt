-- ===== src/Store/Coaches.antt =====
-- The table coaches and the statements that write it (UpsertCoachProfile and SetCoachApproval of
-- backend/internal/store/db/coaching.sql.go); approval_status is pending by default
-- (migrations/000014_coach_approval.up.sql).
use dating_coach.Base.{
  ℕ, Bool, Option, none, some, List, ◌∷◌, String, ◌==◌, any, if◌then◌else◌, find_first,
  update_where,
}
use dating_coach.Store.Rows.{ApprovalStatus, approval_pending, Time}

pub record Coach : Type 0 where
  pub user_id : ℕ
  pub headline : String
  pub bio : String
  pub specialties : List String
  pub hourly_rate_cents : ℕ
  pub timezone : String
  pub years_experience : ℕ
  pub accepting_clients : Bool
  pub created_at : Time
  pub updated_at : Time
  pub phases : List String
  pub approval_status : ApprovalStatus

abbrev pub Coaches : Type 0
Coaches = List Coach

abbrev pub has_user : ℕ → Coach → Bool
has_user i c = c.user_id == i

pub record UpsertCoachProfile : Type 0 where
  pub user_id : ℕ
  pub headline : String
  pub bio : String
  pub specialties : List String
  pub phases : List String
  pub hourly_rate_cents : ℕ
  pub timezone : String
  pub years_experience : ℕ
  pub accepting_clients : Bool

abbrev pub edited_coach : UpsertCoachProfile → Time → Coach → Coach
edited_coach arg now c = record c {
  headline = arg.headline;
  bio = arg.bio;
  specialties = arg.specialties;
  phases = arg.phases;
  hourly_rate_cents = arg.hourly_rate_cents;
  timezone = arg.timezone;
  years_experience = arg.years_experience;
  accepting_clients = arg.accepting_clients;
  updated_at = now;
}

abbrev pub new_coach : UpsertCoachProfile → Time → Coach
new_coach arg now = record {
  user_id = arg.user_id;
  headline = arg.headline;
  bio = arg.bio;
  specialties = arg.specialties;
  hourly_rate_cents = arg.hourly_rate_cents;
  timezone = arg.timezone;
  years_experience = arg.years_experience;
  accepting_clients = arg.accepting_clients;
  created_at = now;
  updated_at = now;
  phases = arg.phases;
  approval_status = approval_pending;
}

-- A new row wants its user: the foreign key.
unfoldable pub upsert_coach_profile :
    UpsertCoachProfile → Time → Bool → Coaches → Option Coach × Coaches
upsert_coach_profile arg now user_exists coaches =
    if any (has_user arg.user_id) coaches
    then (
      find_first (has_user arg.user_id)
          (update_where (has_user arg.user_id) (edited_coach arg now) coaches),
      update_where (has_user arg.user_id) (edited_coach arg now) coaches,
    )
    else (if user_exists
        then (some (new_coach arg now), new_coach arg now ∷ coaches)
        else (none, coaches))

abbrev pub decided_coach : ApprovalStatus → Time → Coach → Coach
decided_coach status now c = record c { approval_status = status; updated_at = now }

unfoldable pub set_coach_approval : ℕ → ApprovalStatus → Time → Coaches → Option Coach × Coaches
set_coach_approval i status now coaches = (
  find_first (has_user i) (update_where (has_user i) (decided_coach status now) coaches),
  update_where (has_user i) (decided_coach status now) coaches,
)
