-- ===== src/ReviewTests.antt =====
-- A review of the coach of the coaching tests, by a client with a completed session, in the place of an
-- older one; and decisions about a coach.
use dating_coach.Base.{true, List, ◌≤◌, ◌≡◌, refl, arith, none, some, [], ◌∷◌, select, length}
use dating_coach.Base.Outcomes.{done, Ensures}
use dating_coach.Store.Status.{completed}
use dating_coach.Store.Reviews.{CoachReview, by_client, has_completed_session}
use dating_coach.Coaching.World.{find_coach, find_live_user}
use dating_coach.Coaching.Reviews.{ReviewState, ReviewEnv, CreateReviewInput, Review, create_review}
use dating_coach.Coaching.Reviews.Recorded.{
  Allowed, Recorded, create_review-Recorded, allowed_review_is_kept,
}
use dating_coach.Store.Rows.{approval_pending, approval_approved}
use dating_coach.Store.Coaches.{Coach, UpsertCoachProfile}
use dating_coach.Coaching.Profiles.{CoachesState}
use dating_coach.Coaching.Profiles.Approval
use dating_coach.Coaching.Profiles.Origin
use dating_coach.AccountTests
use dating_coach.Tests.{service, coach, client, waiting, waiting_world}

abbrev older : CoachReview
older = record {
  id = 7;
  coach_id = 1;
  user_id = 2;
  session_id = none;
  rating = 2;
  comment = "";
  created_at = 3;
  updated_at = 3;
}

abbrev held : ReviewState
held = record {
  db = record (waiting_world.db) { sessions = record waiting { status = completed } ∷ [] };
  reviews = record older { user_id = 4 } ∷ older ∷ [];
}

abbrev writing : ReviewEnv
writing = record { trim = λ t. t; rune_count = λ t. 6; new_id = 8; db_now = 9 }

abbrev input : CreateReviewInput
input = record { session_id = some 5; rating = 5; comment = "Thanks" }

one_older : length (select (by_client 1 2) held.reviews) ≤ 1
one_older = omega arith

input-Allowed : Allowed 1 2 input held
unfolding has_completed_session
input-Allowed = record {
  apart = refl;
  at_least = omega arith;
  at_most = omega arith;
  has_met = refl;
}

create_review-Recorded_example :
    Ensures (Recorded writing 1 2 input held) (create_review writing 1 2 input held)
create_review-Recorded_example = create_review-Recorded writing 1 2 input held one_older

coach_found : find_coach 1 held.db.coaches ≡ some coach
unfolding find_coach
coach_found = refl

client_found : find_live_user 2 held.db.users ≡ some client
unfolding find_live_user
client_found = refl

allowed_review_is_kept_example :
    (review : Review) × (t : ReviewState) × (create_review writing 1 2 input held
      ≡ (done review, t))
    × Recorded writing 1 2 input held review t
allowed_review_is_kept_example =
    allowed_review_is_kept writing 1 2 input held coach client one_older input-Allowed refl
      coach_found client_found

abbrev profile : Coach
profile = record {
  user_id = 1;
  headline = "";
  bio = "";
  specialties = [];
  hourly_rate_cents = 9000;
  timezone = "UTC";
  years_experience = 4;
  accepting_clients = true;
  created_at = 0;
  updated_at = 0;
  phases = [];
  approval_status = approval_pending;
}

abbrev directory : CoachesState
directory = record { users = waiting_world.db.users; coaches = profile ∷ [] }

abbrev edit : UpsertCoachProfile
edit = record {
  user_id = 1;
  headline = "Dates";
  bio = "";
  specialties = [];
  phases = "Opening" ∷ [];
  hourly_rate_cents = 100;
  timezone = "";
  years_experience = 5;
  accepting_clients = true;
}

abbrev requests : List Approval.Request
requests =
    Approval.decides 5 1 "approved"
    ∷ Approval.saves 6 edit
    ∷ Approval.decides 7 1 "maybe"
    ∷ Approval.decides 8 3 "rejected"
    ∷ []

profile-HasStatus : Approval.HasStatus 1 approval_pending directory.coaches
profile-HasStatus = (profile, refl, refl)

approved_in_the_end :
    Approval.last_decision AccountTests.service 1 requests approval_pending ≡ approval_approved
approved_in_the_end = refl

-- Another coach saves a first profile.
abbrev later_requests : List Approval.Request
later_requests = Approval.saves 9 (record edit { user_id = 2 }) ∷ requests

approval_is_last_decision_example :
    Origin.Decided AccountTests.service 2 none later_requests
      (Approval.serve_all service AccountTests.service later_requests directory).coaches
approval_is_last_decision_example =
    Origin.approval_is_last_decision service AccountTests.service 2 none later_requests directory
      refl

first_coach-Decided :
    Origin.Decided AccountTests.service 1
      (some approval_pending)
      requests
      (Approval.serve_all service AccountTests.service requests directory).coaches
first_coach-Decided =
    Origin.approval_is_last_decision service AccountTests.service 1 (some approval_pending) requests
      directory profile-HasStatus
