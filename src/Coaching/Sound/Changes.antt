-- ===== src/Coaching/Sound/Changes.antt =====
-- The invariant through writes of one row, and through SetStatus.
use dating_coach.Store.Payments.{awaits_payment, release_pending_payment_session, freed_row}
use dating_coach.Base.{
  ◌==◌, Bool-cases, zero, inr, inl, Option-cases, suc, ℕ, ◌≡◌, ◌≢◌, arith, Bool, true, Option, none,
  some,
}
use dating_coach.Store.Status.{Status, pending_payment, status_eq, status_eq→eq}
use dating_coach.Store.Rows.{Time, CoachingSession}
use dating_coach.Store.Table.{Rows, Write, written, update_one}
use dating_coach.Store.Updates.{status_row, update_session_status}
use dating_coach.Coaching.World.{
  participant, World, Tx, after, Env, set_sessions, Error, one_of, write_result, ◌>>◌, pure,
}
use dating_coach.Coaching.Changes
use dating_coach.Coaching.Effects.{SameSessions, notify_cancelled-SameSessions}
use dating_coach.Coaching.Lifecycle.Statements.{freed_row-IsConsistent, status_row-IsConsistent}
use dating_coach.Coaching.Sound.{
  All-find_row, find_row, IsConsistent, IsSound, update_one-IsSound, Keeps, WriteSound,
}
use dating_coach.Coaching.Sound.Handlers.{settle-WorldSound, WorldSound, Lands, notified-Lands}

-- A statement that keeps every row it may touch leaves a sound world.
pub one_of-WorldSound :
    (e : Error) (w : World) (o : Option CoachingSession × Rows)
    → WorldSound w
    → IsSound o.1
    → WorldSound (one_of e w o).1
one_of-WorldSound e w (none, rows) v k = v
one_of-WorldSound e w (some r, rows) v k = k

-- A statement, emails, and the row that it returned.
pub notified_one-Lands :
    (e : Error) (w : World) (o : Option CoachingSession × Rows)
    (notify : CoachingSession → Tx (Unit {0}))
    → ((r : CoachingSession) (w' : World) → SameSessions w' (notify r w').1)
    → IsSound o.1
    → Lands (after (one_of e w o) λ r. notify r >> pure r)
notified_one-Lands e w (none, rows) notify same k = tt
notified_one-Lands e w (some r, rows) notify same k =
    notified-Lands r (notify r (set_sessions w rows)) (set_sessions w rows)
      (same r (set_sessions w rows)) k

pub written_then-Lands :
    {A : Type 0} (e : Error) (w : World) (o : Write) (f : CoachingSession → Tx A)
    → WriteSound o
    → ((r : CoachingSession) (w' : World) → WorldSound w' → Lands (f r w'))
    → Lands (after (write_result e w o) f)
written_then-Lands e w (written r rows) f k l = l r (set_sessions w rows) k.1
written_then-Lands e w Write.slot_conflict f k l = tt
written_then-Lands e w Write.rejected f k l = tt
written_then-Lands e w Write.no_row f k l = tt

pub notified_write-Lands :
    (e : Error) (w : World) (o : Write) (notify : Tx (Unit {0}))
    → ((w' : World) → SameSessions w' (notify w').1)
    → WriteSound o
    → Lands (after (write_result e w o) λ r. notify >> pure r)
notified_write-Lands e w (written r rows) notify same k =
    notified-Lands r (notify (set_sessions w rows)) (set_sessions w rows)
      (same (set_sessions w rows)) k.1
notified_write-Lands e w Write.slot_conflict notify same k = tt
notified_write-Lands e w Write.rejected notify same k = tt
notified_write-Lands e w Write.no_row notify same k = tt

status-Keeps :
    (env : Env) (session r : CoachingSession) (target : Status)
    → Changes.may_become session.status target ≡ true
    → session.status ≢ pending_payment
    → Keeps (λ q. status_eq q.status session.status) (status_row target env.db_now) r
unfolding status_row Changes.may_become
status-Keeps env session r target m n = record {
  consistent = λ c g.
      let same : r.status ≡ session.status = status_eq→eq _ _ g in
      status_row-IsConsistent env.db_now c target (rw same m) (rw same n);
  shrinks = λ g. let same : r.status ≡ session.status = status_eq→eq _ _ g in ground arith;
}

move_status-Lands :
    (env : Env) (session : CoachingSession) (by_coach : Bool) (target : Status) (w : World)
    → Changes.may_become session.status target ≡ true
    → session.status ≢ pending_payment
    → WorldSound w
    → Lands (Changes.move_status env session by_coach target w)
unfolding Changes.move_status update_session_status
move_status-Lands env session by_coach target w m n v =
    notified_one-Lands _ w
      (update_one session.id (λ q. status_eq q.status session.status) (status_row target env.db_now)
        w.db.sessions)
      _
      (λ r w'. ground (arith, notify_cancelled-SameSessions session.id by_coach session.status w'))
      (update_one-IsSound session.id _ _ w.db.sessions
        (λ r e. status-Keeps env session r target m n) v)

freed-Keeps : (now : Time) (r : CoachingSession) → Keeps awaits_payment (freed_row now) r
unfolding freed_row
freed-Keeps now r = record {
  consistent = λ c g. freed_row-IsConsistent now c;
  shrinks = λ g. ground arith;
}

or_retry-WorldSound :
    (o : Option CoachingSession × Rows) (retry : Tx CoachingSession) (w : World)
    → WorldSound (retry w).1
    → IsSound o.1
    → WorldSound (Changes.or_retry o retry w).1
or_retry-WorldSound (none, rows) retry w v k = v
or_retry-WorldSound (some r, rows) retry w v k = k

apply_status-WorldSound :
    (env : Env) (retry : Tx CoachingSession) (session : CoachingSession) (actor_id : ℕ)
    (target : Status) (w : World)
    → Changes.may_become session.status target ≡ true
    → ((w' : World) → WorldSound w' → WorldSound (retry w').1)
    → WorldSound w
    → WorldSound (Changes.apply_status env retry session actor_id target w).1
unfolding Changes.apply_status release_pending_payment_session
apply_status-WorldSound env retry session actor_id target w m k v =
    elim (Bool-cases (status_eq session.status pending_payment)) [
      | inl held ↦ rw held (
          or_retry-WorldSound _ retry w (k w v) (
            update_one-IsSound session.id awaits_payment (freed_row env.db_now) w.db.sessions
              (λ r e. freed-Keeps env.db_now r) v))
      | inr free ↦ rw free (
          settle-WorldSound env w
            (Changes.move_status env session (actor_id == session.coach_id) target w) v
            (move_status-Lands env session (actor_id == session.coach_id) target w m
              (ground (arith, free)) v))
    ]

-- Changing a status keeps the invariant, also on a stale snapshot.
pub change_status-WorldSound :
    (env : Env) (retry : Tx CoachingSession) (session : CoachingSession) (actor_id : ℕ)
    (target : Status) (w : World)
    → ((w' : World) → WorldSound w' → WorldSound (retry w').1)
    → WorldSound w
    → WorldSound (Changes.change_status env retry session actor_id target w).1
unfolding Changes.change_status
change_status-WorldSound env retry session actor_id target w k v = ground (
  arith,
  λ (m : Changes.may_become session.status target ≡ true).
      apply_status-WorldSound env retry session actor_id target w m k v,
)

-- A handler that reads the session first.
pub participant-WorldSound :
    (i j : ℕ) (w : World) (f : CoachingSession → Tx CoachingSession)
    → WorldSound w
    → ((s : CoachingSession) → IsConsistent s → WorldSound (f s w).1)
    → WorldSound (after (participant i j w) f).1
unfolding participant
participant-WorldSound i j w f v k = elim (Option-cases (find_row i w.db.sessions)) [
  | inl e ↦ rw e v
  | inr (r, e) ↦
      let c : IsConsistent r = All-find_row IsConsistent i r w.db.sessions v.consistent e in
      rw e (ground (arith, k r c))
]

pub set_status-WorldSound :
    (fuel : ℕ) (env : Env) (session_id actor_id : ℕ) (target : Status) (w : World)
    → WorldSound w
    → WorldSound (Changes.set_status fuel env session_id actor_id target w).1
unfolding Changes.set_status
set_status-WorldSound zero env session_id actor_id target w v = v
set_status-WorldSound (suc fuel) env session_id actor_id target w v =
    participant-WorldSound session_id actor_id w _ v (λ s c.
      change_status-WorldSound env _ s actor_id target w
        (set_status-WorldSound fuel env session_id actor_id target) v)
