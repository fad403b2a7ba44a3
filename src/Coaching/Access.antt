-- ===== src/Coaching/Access.antt =====
-- Who may change a session: participant and the checks after it
-- (backend/internal/coaching/service.go).
use dating_coach.Base.{ℕ, suc, ◌≡◌, refl, arith, true, false, some, String, ◌==◌, ltb}
use dating_coach.Store.Status.{Status}
use dating_coach.Store.Rows.{CoachingSession, Time}
use dating_coach.Store.Table.{find_row}
use dating_coach.Coaching.World.{World, Env, Service, err, forbidden, participant}
use dating_coach.Coaching.Answers
use dating_coach.Coaching.Changes

-- A user who is neither the client nor the coach of a stored session is refused by every request on
-- it, and nothing changes: an answer, a change of status, a move to a time not in the past, notes,
-- and a well-formed meeting link.
pub stranger_is_refused :
    (svc : Service) (env : Env) (i actor_id fuel : ℕ) (r : CoachingSession) (w : World)
    (action : Answers.Action) (target : Status) (start : Time) (notes url : String)
    → find_row i w.db.sessions ≡ some r
    → r.user_id == actor_id ≡ false
    → r.coach_id == actor_id ≡ false
    → ltb start env.now ≡ false
    → (Answers.respond_as_coach svc env i actor_id action w ≡ (err forbidden, w))
      × (Changes.set_status (suc fuel) env i actor_id target w ≡ (err forbidden, w))
      × (Changes.reschedule svc env i actor_id (some start) w ≡ (err forbidden, w))
      × (Changes.set_notes env i actor_id notes w ≡ (err forbidden, w))
      × (Changes.set_meeting_url env i actor_id (some url) w ≡ (err forbidden, w))
unfolding Answers.respond_as_coach Changes.set_status Changes.reschedule Changes.set_notes
    Changes.set_meeting_url participant
stranger_is_refused svc env i a fuel r w action target start notes url f u c p = (
  rw (f, u, c) refl,
  rw (f, u, c) refl,
  rw (p, f, u, c) refl,
  rw (f, u, c) refl,
  rw (f, u, c) refl,
)

-- What only the coach may do is refused to the client of a stored session, and nothing changes: an
-- answer, notes, a well-formed meeting link, and recording that a scheduled session was completed or
-- missed.
pub client_is_no_coach :
    (svc : Service) (env : Env) (i client_id fuel : ℕ) (r : CoachingSession) (w : World)
    (action : Answers.Action) (target : Status) (notes url : String)
    → find_row i w.db.sessions ≡ some r
    → r.user_id == client_id ≡ true
    → r.coach_id == client_id ≡ false
    → Changes.may_become r.status target ≡ true
    → Changes.coach_only target ≡ true
    → (Answers.respond_as_coach svc env i client_id action w ≡ (err forbidden, w))
      × (Changes.set_status (suc fuel) env i client_id target w ≡ (err forbidden, w))
      × (Changes.set_notes env i client_id notes w ≡ (err forbidden, w))
      × (Changes.set_meeting_url env i client_id (some url) w ≡ (err forbidden, w))
unfolding Answers.respond_as_coach Changes.set_status Changes.change_status Changes.set_notes
    Changes.set_meeting_url participant
client_is_no_coach svc env i a fuel r w action target notes url f u c m o =
    (rw (f, u, c) refl, ground (arith, f, u, c, m, o), rw (f, u, c) refl, rw (f, u, c) refl)
