-- ===== src/Coaching/History.antt =====
-- Histories of the coaching service: requests of clients and coaches, webhooks and worker passes, in
-- any order, each on the snapshot of its session that it had read. Between the reading of a session
-- and its transaction anything else may happen.
use dating_coach.Coaching.Sound.Sweeps.{expire_pending-WorldSound}
use dating_coach.Coaching.Sound.Cleanup.{sweep_payments-WorldSound}
use dating_coach.Coaching.Sound.Payments.{apply_payment_event-WorldSound}
use dating_coach.Coaching.Sound.Changes.{set_status-WorldSound, change_status-WorldSound}
use dating_coach.Coaching.Sound.Moving.{
  set_meeting_url-WorldSound, set_notes-WorldSound, reschedule_from-WorldSound,
}
use dating_coach.Coaching.Sound.Booking.{
  start_checkout-WorldSound, hold_slot-WorldSound, InFlight, book_free-WorldSound,
}
use dating_coach.Coaching.Sound.Handlers.{WorldSound}
use dating_coach.Coaching.Sound.Answering.{respond-WorldSound}
use dating_coach.Base.{ℕ, Option, String}
use dating_coach.Store.Status.{Status}
use dating_coach.Store.Rows.{CoachingSession, Time}
use dating_coach.Coaching.World.{World, Env, Service}
use dating_coach.Coaching.Answers
use dating_coach.Coaching.Booking
use dating_coach.Coaching.Changes
use dating_coach.Coaching.Payment
use dating_coach.Coaching.Sweep
use dating_coach.Coaching.Lifecycle.{IsConsistent}
use dating_coach.Coaching.Sound.{IsSound}

pub data Step (svc : Service) (w : World) : World → Type 0 where
  books_free : (env : Env) (r : Booking.Request) → Step svc w (Booking.book_free svc env r w).1
  holds : (env : Env) (r : Booking.Request) → Step svc w (Booking.hold_slot svc env r w).1
  -- The row that bookPaid inserted has no checkout before this step attaches one.
  starts_checkout :
      (env : Env) (email : String) (s : CoachingSession)
      → InFlight s.id w.db.sessions
      → Step svc w (Booking.start_checkout svc env email s w).1
  responds :
      (env : Env) (s : CoachingSession) (action : Answers.Action)
      → Step svc w (Answers.respond svc env s action w).1
  changes_status :
      (fuel : ℕ) (env : Env) (s : CoachingSession) (session_id actor_id : ℕ) (target : Status)
      → Step svc w
          (Changes.change_status env
            (Changes.set_status fuel env session_id actor_id target)
            s
            actor_id
            target
            w).1
  -- The snapshot was a row of the table when it was read.
  reschedules :
      (env : Env) (s : CoachingSession) (actor_id : ℕ) (start : Time)
      → IsConsistent s
      → Step svc w (Changes.reschedule_from svc env s actor_id start w).1
  sets_notes :
      (env : Env) (session_id coach_id : ℕ) (notes : String)
      → Step svc w (Changes.set_notes env session_id coach_id notes w).1
  sets_meeting_url :
      (env : Env) (session_id coach_id : ℕ) (url : Option String)
      → Step svc w (Changes.set_meeting_url env session_id coach_id url w).1
  pays : (env : Env) (ev : Payment.Event) → Step svc w (Payment.apply_payment_event svc env ev w).1
  expires : (fuel : ℕ) (env : Env) → Step svc w (Sweep.expire_pending fuel env 0 w).1
  sweeps : (env : Env) (now : Time) → Step svc w (Sweep.sweep_payments svc env now w).1

pub data Reach (svc : Service) (w : World) : World → Type 0 where
  here : Reach svc w w
  next : {u v : World} → Reach svc w u → Step svc u v → Reach svc w v

Step-WorldSound : {svc : Service} {u v : World} → Step svc u v → WorldSound u → WorldSound v
Step-WorldSound {svc} {u} (books_free env r) h = book_free-WorldSound svc env r u h
Step-WorldSound {svc} {u} (holds env r) h = hold_slot-WorldSound svc env r u h
Step-WorldSound {svc} {u} (starts_checkout env email s f) h =
    start_checkout-WorldSound svc env email s u f h
Step-WorldSound {svc} {u} (responds env s action) h = respond-WorldSound svc env s action u h
Step-WorldSound {svc} {u} (changes_status fuel env s i j t) h =
    change_status-WorldSound env (Changes.set_status fuel env i j t) s j t u
      (set_status-WorldSound fuel env i j t) h
Step-WorldSound {svc} {u} (reschedules env s j start c) h =
    reschedule_from-WorldSound svc env s j start u c h
Step-WorldSound {svc} {u} (sets_notes env i j notes) h = set_notes-WorldSound env i j notes u h
Step-WorldSound {svc} {u} (sets_meeting_url env i j url) h =
    set_meeting_url-WorldSound env i j url u h
Step-WorldSound {svc} {u} (pays env ev) h = apply_payment_event-WorldSound svc env ev u h
Step-WorldSound {svc} {u} (expires fuel env) h = expire_pending-WorldSound fuel env 0 u h
Step-WorldSound {svc} {u} (sweeps env now) h = sweep_payments-WorldSound svc env now u h

-- Every table reached from a sound one by any sequence of steps, where a move is given a consistent
-- snapshot and a checkout is started for a session whose payment is still pending or failed, is
-- sound: each session's status, payment status, payment reference, answering token, deadline and
-- duration belong together, keys are unique, and no two sessions of one coach that hold their slots
-- overlap.
pub Reach-IsSound :
    (svc : Service) (u v : World) → Reach svc u v → IsSound u.db.sessions → IsSound v.db.sessions
Reach-IsSound svc u v here h = h
Reach-IsSound svc u v (next r s) h = Step-WorldSound s (Reach-IsSound svc u _ r h)
