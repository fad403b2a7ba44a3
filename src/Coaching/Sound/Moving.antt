-- ===== src/Coaching/Sound/Moving.antt =====
-- The invariant through Reschedule, SetNotes and SetMeetingURL.

use dating_coach.Coaching.Slots.{assert_bookable, check_bookable}
use dating_coach.Base.{
  false, if◌then◌else◌, ltb, not, ◌==◌, refl, String, ℕ, ◌≡◌, arith, Bool, true, Option, none, some,
}
use dating_coach.Store.Status.{status_eq}
use dating_coach.Store.Rows.{Time, CoachingSession}
use dating_coach.Store.Table.{update_one}
use dating_coach.Store.Updates.{
  linkable, update_session_notes, update_session_meeting_url, noted_row, linked_row,
  RescheduleParams, reschedule_session, moved_row,
}
use dating_coach.Coaching.World.{Service, World, Env}
use dating_coach.Coaching.Changes
use dating_coach.Coaching.Effects.{
  notify_linked-SameSessions, read_then, required_then, guard_then, notify_moved-SameSessions,
}
use dating_coach.Coaching.Lifecycle.Statements.{
  linked_row-IsConsistent, noted_row-IsConsistent, moved_row-IsConsistent,
}
use dating_coach.Coaching.Sound.{
  write_one-WriteSound, find_row, IsConsistent, update_one-IsSound, Keeps,
}
use dating_coach.Coaching.Sound.Handlers.{settle-WorldSound, WorldSound, Lands}
use dating_coach.Coaching.Sound.Changes.{
  one_of-WorldSound, notified_one-Lands, notified_write-Lands, participant-WorldSound,
}

moved-IsConsistent :
    (svc : Service) (env : Env) (session r : CoachingSession) (by_coach : Bool) (start : Time)
    (token : String)
    → IsConsistent session
    → Changes.is_movable session.status ≡ true
    → IsConsistent r
    → status_eq r.status session.status ≡ true
    → IsConsistent
        (moved_row (Changes.move_params svc env session by_coach start token) env.db_now r)
unfolding Changes.move_params
moved-IsConsistent svc env session r by_coach start token c m d g =
    moved_row-IsConsistent env.db_now d (Changes.move_params svc env session by_coach start token) g
      (ground arith) (ground arith) (ground arith) (ground arith)

moved-id : (p : RescheduleParams) (now : Time) (r : CoachingSession) → (moved_row p now r).id ≡ r.id
unfolding moved_row
moved-id p now r = refl

move_session-Lands :
    (svc : Service) (env : Env) (session : CoachingSession) (by_coach : Bool) (start : Time)
    (token : String) (w : World)
    → IsConsistent session
    → Changes.is_movable session.status ≡ true
    → WorldSound w
    → Lands (Changes.move_session svc env session by_coach start token w)
unfolding Changes.move_session reschedule_session Changes.move_params
move_session-Lands svc env session by_coach start token w c m v =
    let p = Changes.move_params svc env session by_coach start token in
    notified_write-Lands _ w (reschedule_session p env.db_now w.db.sessions)
      (Changes.notify_moved session.id by_coach token)
      (notify_moved-SameSessions session.id by_coach token)
      (write_one-WriteSound p.id (λ q. status_eq q.status p.expected_status)
        (moved_row p env.db_now) w.db.sessions
        (λ r e d g. moved-IsConsistent svc env session r by_coach start token c m d g)
        (moved-id p env.db_now) v)

-- Moving a session keeps the invariant, on any snapshot that was once a row.
pub reschedule_from-WorldSound :
    (svc : Service) (env : Env) (session : CoachingSession) (actor_id : ℕ) (start : Time)
    (w : World)
    → IsConsistent session
    → WorldSound w
    → WorldSound (Changes.reschedule_from svc env session actor_id start w).1
unfolding Changes.reschedule_from check_bookable
reschedule_from-WorldSound svc env session actor_id start w c v =
    let by_coach = actor_id == session.coach_id in
    guard_then WorldSound w _ (Changes.is_movable session.status) _ v λ m.
      read_then WorldSound w _
        (assert_bookable svc w.db session.coach_id start session.duration_minutes false
          (some session.id))
        v
        λ u _.
          required_then WorldSound w _ (if by_coach then some "" else env.random_token) _ v
            λ token _.
              settle-WorldSound env w (Changes.move_session svc env session by_coach start token w)
                v (move_session-Lands svc env session by_coach start token w c m v)

pub reschedule-WorldSound :
    (svc : Service) (env : Env) (session_id actor_id : ℕ) (parsed : Option Time) (w : World)
    → WorldSound w
    → WorldSound (Changes.reschedule svc env session_id actor_id parsed w).1
unfolding Changes.reschedule
reschedule-WorldSound svc env session_id actor_id parsed w v =
    required_then WorldSound w _ parsed _ v λ start _.
      guard_then WorldSound w _ (not (ltb start env.now)) _ v λ _.
        participant-WorldSound session_id actor_id w _ v
          (λ s c. reschedule_from-WorldSound svc env s actor_id start w c v)

noted-Keeps :
    (notes : String) (now : Time) (r : CoachingSession) → Keeps (λ q. true) (noted_row notes now) r
unfolding noted_row
noted-Keeps notes now r = record {
  consistent = λ c g. noted_row-IsConsistent now c notes;
  shrinks = λ g. ground arith;
}

pub set_notes-WorldSound :
    (env : Env) (session_id coach_id : ℕ) (notes : String) (w : World)
    → WorldSound w
    → WorldSound (Changes.set_notes env session_id coach_id notes w).1
unfolding Changes.set_notes update_session_notes
set_notes-WorldSound env session_id coach_id notes w v =
    participant-WorldSound session_id coach_id w _ v λ s c.
      guard_then WorldSound w _ (s.coach_id == coach_id) _ v λ _.
        one_of-WorldSound _ w
          (update_one session_id (λ q. true) (noted_row notes env.db_now) w.db.sessions) v
          (update_one-IsSound session_id _ _ w.db.sessions (λ r e. noted-Keeps notes env.db_now r)
            v)

linked-Keeps :
    (url : String) (now : Time) (r : CoachingSession) → Keeps (linkable url) (linked_row url now) r
unfolding linked_row
linked-Keeps url now r = record {
  consistent = λ c g. linked_row-IsConsistent now c url;
  shrinks = λ g. ground arith;
}

link_session-Lands :
    (env : Env) (i : ℕ) (url : String) (w : World)
    → WorldSound w
    → Lands (Changes.link_session env i url w)
unfolding Changes.link_session update_session_meeting_url
link_session-Lands env i url w v =
    notified_one-Lands _ w (update_one i (linkable url) (linked_row url env.db_now) w.db.sessions)
      Changes.notify_linked notify_linked-SameSessions
      (update_one-IsSound i _ _ w.db.sessions (λ r e. linked-Keeps url env.db_now r) v)

linked_or_relink-WorldSound :
    (env : Env) (i : ℕ) (url : String) (o : Option CoachingSession) (w : World)
    → WorldSound w
    → WorldSound (Changes.linked_or_relink env i url o w).1
linked_or_relink-WorldSound env i url none w v =
    required_then WorldSound w _ (find_row i w.db.sessions) _ v
      λ s _. guard_then WorldSound w _ (Changes.is_movable s.status) _ v λ _. v
linked_or_relink-WorldSound env i url (some r) w v =
    settle-WorldSound env w (Changes.link_session env i url w) v (link_session-Lands env i url w v)

pub set_meeting_url-WorldSound :
    (env : Env) (session_id coach_id : ℕ) (url : Option String) (w : World)
    → WorldSound w
    → WorldSound (Changes.set_meeting_url env session_id coach_id url w).1
unfolding Changes.set_meeting_url
set_meeting_url-WorldSound env session_id coach_id url w v =
    required_then WorldSound w _ url _ v λ link _.
      participant-WorldSound session_id coach_id w _ v λ s c.
        guard_then WorldSound w _ (s.coach_id == coach_id) _ v λ _.
          guard_then WorldSound w _ (Changes.is_movable s.status) _ v
            λ _. linked_or_relink-WorldSound env session_id link _ w v
