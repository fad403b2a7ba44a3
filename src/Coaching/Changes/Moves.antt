-- ===== src/Coaching/Changes/Moves.antt =====
-- What a move writes: Reschedule of backend/internal/coaching/service.go.
use dating_coach.Coaching.Changes.{pure, check_bookable, status_eq}
use dating_coach.Coaching.Slots.{check_bookable, assert_bookable}
use dating_coach.Coaching.Effects.{guard-Post, read-Post, required-Post}
use dating_coach.Base.{
  subst, if◌then◌else◌, suc, ℕ, ◌≡◌, refl, arith, Bool, true, false, Option, none, some, inl, inr,
  Option-cases, String, ◌==◌,
}
use dating_coach.Store.Status.{pending}
use dating_coach.Store.Rows.{CoachingSession, Time}
use dating_coach.Store.Table.{
  Rows, Write, written, slot_conflict, rejected, no_row, find_row, find_row-id, put_row,
  find_row-put_row_self, conflicts_in,
}
use dating_coach.Store.Updates.{RescheduleParams, moved_row, write_one, reschedule_session}
use dating_coach.Coaching.Clock.{respond_deadline}
use dating_coach.Coaching.World.{
  ◌>>◌, World, Env, Service, Result, ok, err, after, set_sessions, write_result, Error,
}
use dating_coach.Coaching.Effects.{Post, settle-Post, notify_moved-SameSessions}
use dating_coach.Coaching.Changes

abbrev pub hashed : Service → Option String → Option String
hashed svc none = none
hashed svc (some token) = some (svc.hash_token token)

-- The row under the key after a move of the snapshot `s` to `start`.
pub record Moved (svc : Service) (env : Env) (s : CoachingSession) (by_coach : Bool) (start : Time)
    (w w' : World) : Type 0 where
  pub before : CoachingSession
  pub found : find_row s.id w.db.sessions ≡ some before
  pub unchanged_status : before.status ≡ s.status
  pub moved : CoachingSession
  pub kept : find_row s.id w'.db.sessions ≡ some moved
  pub at_start : moved.scheduled_time ≡ start
  pub same_payment : moved.payment_status ≡ before.payment_status
  pub same_length : moved.duration_minutes ≡ before.duration_minutes
  pub next_sequence : moved.calendar_sequence ≡ suc before.calendar_sequence
  pub new_status : moved.status ≡ (if by_coach then before.status else pending)
  pub new_deadline :
      moved.respond_by ≡ (if by_coach then s.respond_by else some (respond_deadline env.now start))
  pub new_token :
      moved.confirmation_token
      ≡ (if by_coach then s.confirmation_token else hashed svc env.random_token)
  pub no_collision : conflicts_in s.id moved w.db.sessions ≡ false

write_one_written :
    (i : ℕ) (guard : CoachingSession → Bool) (change : CoachingSession → CoachingSession)
    (rows rows' : Rows) (r' : CoachingSession)
    → write_one i guard change rows ≡ written r' rows'
    → (r : CoachingSession) × (find_row i rows ≡ some r)
      × (guard r ≡ true)
      × (conflicts_in i (change r) rows ≡ false)
      × (rows' ≡ put_row i (change r) rows)
unfolding write_one
write_one_written i guard change rows rows' r' h = elim (Option-cases (find_row i rows)) [
  | inl e ↦ ground (arith, e, h)
  | inr (r, e) ↦ (r, e, ground (arith, e, h), ground (arith, e, h), ground (arith, e, h))
]

module _ (svc : Service) (env : Env) (s : CoachingSession) (by_coach : Bool) (start : Time)
    (token : String) (w : World)
    (drawn : (if by_coach then some "" else env.random_token) ≡ some token) where
  abbrev params : RescheduleParams
  params = Changes.move_params svc env s by_coach start token

  written_row :
      (r : CoachingSession)
      → find_row s.id w.db.sessions ≡ some r
      → status_eq r.status params.expected_status ≡ true
      → conflicts_in s.id (moved_row params env.db_now r) w.db.sessions ≡ false
      → Moved svc env s by_coach start w
          (set_sessions w (put_row s.id (moved_row params env.db_now r) w.db.sessions))
  unfolding moved_row Changes.move_params
  written_row r f g n = record {
    before = r;
    found = f;
    unchanged_status = ground (arith, g);
    moved = moved_row params env.db_now r;
    kept = find_row-put_row_self s.id _ r w.db.sessions (find_row-id s.id r w.db.sessions f) f;
    at_start = refl;
    same_payment = refl;
    same_length = refl;
    next_sequence = ground arith;
    new_status = ground (arith, g);
    new_deadline = ground arith;
    new_token = ground (arith, drawn);
    no_collision = n;
  }

  Moved-same :
      (v v' : World)
      → v'.db.sessions ≡ v.db.sessions
      → Moved svc env s by_coach start w v
      → Moved svc env s by_coach start w v'
  Moved-same v v' e m = record {
    before = m.before;
    found = m.found;
    unchanged_status = m.unchanged_status;
    moved = m.moved;
    kept = rw e m.kept;
    at_start = m.at_start;
    same_payment = m.same_payment;
    same_length = m.same_length;
    next_sequence = m.next_sequence;
    new_status = m.new_status;
    new_deadline = m.new_deadline;
    new_token = m.new_token;
    no_collision = m.no_collision;
  }

  notified-Moved :
      (x : CoachingSession) (v : World) (r : Result (Unit {0}) × World)
      → r.1.db.sessions ≡ v.db.sessions
      → Moved svc env s by_coach start w v
      → Post (Moved svc env s by_coach start w) (after r (λ _. pure x))
  notified-Moved x v (ok a, v') e m = Moved-same v v' e m
  notified-Moved x v (err _, v') e m = tt

  result-Moved :
      (e : Error) (o : Write)
      → ((r' : CoachingSession) (rows' : Rows)
          → o ≡ written r' rows'
          → Moved svc env s by_coach start w (set_sessions w rows'))
      → Post (Moved svc env s by_coach start w) (
          after
            (write_result e w o)
            (λ updated. Changes.notify_moved s.id by_coach token >> pure updated))
  result-Moved e (written r rows) k =
      notified-Moved r (set_sessions w rows)
        (Changes.notify_moved s.id by_coach token (set_sessions w rows))
        (notify_moved-SameSessions s.id by_coach token (set_sessions w rows)) (k r rows refl)
  result-Moved e slot_conflict k = tt
  result-Moved e rejected k = tt
  result-Moved e no_row k = tt

  move_session-Moved :
      Post
        (Moved svc env s by_coach start w)
        (Changes.move_session svc env s by_coach start token w)
  unfolding Changes.move_session reschedule_session Changes.move_params
  move_session-Moved =
      result-Moved _ (reschedule_session params env.db_now w.db.sessions) (λ r' rows' h.
        let (r, f, g, n, p) =
          write_one_written s.id (λ r. status_eq r.status params.expected_status)
            (moved_row params env.db_now) w.db.sessions rows' r' h in
        rw p (written_row r f g n))

reschedule_from-Post :
    (svc : Service) (env : Env) (s : CoachingSession) (actor_id : ℕ) (start : Time) (w : World)
    → Post
        (Moved svc env s (actor_id == s.coach_id) start w)
        (Changes.reschedule_from svc env s actor_id start w)
unfolding Changes.reschedule_from check_bookable
reschedule_from-Post svc env s actor_id start w =
    let by_coach = actor_id == s.coach_id in
    let P = Moved svc env s by_coach start w in
    guard-Post P w _ (Changes.is_movable s.status) _ λ _.
      read-Post P w _
        (assert_bookable svc w.db s.coach_id start s.duration_minutes false (some s.id))
        λ u _. required-Post P w _ (if by_coach then some "" else env.random_token) _ λ token drawn.
          settle-Post P env w (Changes.move_session svc env s by_coach start token w)
            (move_session-Moved svc env s by_coach start token w drawn)

-- A move that succeeded found the stored session in the status that the caller had read, and wrote
-- that row at the new start, free of every collision: its payment and length stay, its calendar
-- sequence grows by one; a client's move puts it back to pending with a new deadline and the hash of
-- a new token, and a coach's move keeps its status and writes the deadline and the token of the
-- snapshot that the coach's request had read.
pub reschedule_from-Moved :
    (svc : Service) (env : Env) (s r : CoachingSession) (actor_id : ℕ) (start : Time) (w w' : World)
    → Changes.reschedule_from svc env s actor_id start w ≡ (ok r, w')
    → Moved svc env s (actor_id == s.coach_id) start w w'
reschedule_from-Moved svc env s r actor_id start w w' h =
    subst (Post (Moved svc env s (actor_id == s.coach_id) start w)) h
      (reschedule_from-Post svc env s actor_id start w)
