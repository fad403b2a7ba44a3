-- ===== src/Coaching/Expiry.antt =====
-- The loop of ExpirePending (backend/internal/coaching/service.go): it ends, and what it leaves.
pub mod Batch
use dating_coach.Coaching.Expiry.Batch.{
  is_due, due_rows, Progress, expire_pending_sessions-Progress,
}
use dating_coach.Base.{
  ltb→lt, is_some, sym, subst, map, ◌∙◌, insert_by, ap, ℕ, zero, suc, ◌+◌, ◌≡◌, ◌≢◌, ◌≤◌, ◌<◌, ◌⊎◌,
  refl, arith, Bool, true, false, not, ◌&&◌, ◌||◌, ◌==◌, Option, none, some, List, [], ◌∷◌, inl,
  inr, Bool-cases, length, take, select, any, All, All-map, All-select, All-sort_by, any-sort_by,
  any-select, any→All, ltb, if◌then◌else◌, sort_by,
}
use dating_coach.Store.Status.{expired, pending, status_eq}
use dating_coach.Store.Rows.{CoachingSession, Time}
use dating_coach.Store.Table.{Rows}
use dating_coach.Store.Sweeps.{
  update_all, overdue, expired_row, overdue_batch, in_batch, expire_pending_sessions, time_or_zero,
}
use dating_coach.Coaching.World.{World, Env, Result, ok, err, settle, set_sessions}
use dating_coach.Coaching.Sweep
use dating_coach.Coaching.World.{after, pure}
use dating_coach.Coaching.Sound.Sweeps.{notify_expired-SameSessions}

-- What a batch leaves, committed or not.
abbrev BatchDone : Env → World → Result ℕ × World → Type 0
BatchDone env w (ok n, w') = Progress env w.db.sessions n w'.db.sessions
BatchDone env w (err e, w') = Unit {0}

notified-BatchDone :
    (env : Env) (w v : World) (n : ℕ) (r : Result (Unit {0}) × World)
    → r.1.db.sessions ≡ v.db.sessions
    → Progress env w.db.sessions n v.db.sessions
    → BatchDone env w (after r (λ _. pure n))
notified-BatchDone env w v n (ok a, v') e p = rw e p
notified-BatchDone env w v n (err x, v') e p = tt

settle-BatchDone :
    (env : Env) (w : World) (r : Result ℕ × World)
    → BatchDone env w r
    → BatchDone env w (settle env w r)
settle-BatchDone env w (ok n, w') h = elim (Bool-cases env.commits) [
  | inl c ↦ simp c h
  | inr c ↦ simp c tt
]
settle-BatchDone env w (err e, w') h = tt

expire_batch-BatchDone : (env : Env) (w : World) → BatchDone env w (Sweep.expire_batch env w)
unfolding Sweep.expire_batch
expire_batch-BatchDone env w =
    let swept = expire_pending_sessions Sweep.expire_batch_size env.held env.db_now w.db.sessions in
    settle-BatchDone env w _ (
      notified-BatchDone env w (set_sessions w swept.1) (length swept.0)
        (Sweep.notify_expired swept.0 (set_sessions w swept.1))
        (notify_expired-SameSessions swept.0 (set_sessions w swept.1))
        (expire_pending_sessions-Progress env w.db.sessions))

-- A sweep that ended: unless an error stopped it, no request is due that it could lock.
abbrev pub Swept : Env → Option Sweep.Pass × World → Type 0
Swept env (none, w) = ⊥
Swept env (some p, w) = (due_rows env w.db.sessions ≡ []) ⊎ (is_some p.stopped ≡ true)

next_pass-Swept :
    (env : Env) (w : World) (fuel total : ℕ) (again : ℕ → World → Option Sweep.Pass × World)
    (r : Result ℕ × World)
    → BatchDone env w r
    → length (due_rows env w.db.sessions) < suc fuel
    → ((t : ℕ) (v : World) → length (due_rows env v.db.sessions) < fuel → Swept env (again t v))
    → Swept env (Sweep.next_pass again total r)
next_pass-Swept env w fuel total again (err e, v) h l k = inr refl
next_pass-Swept env w fuel total again (ok n, v) (inl (short, none_left)) l k =
    rw (short, Sweep.next_pass, Swept) (inl none_left)
next_pass-Swept env w fuel total again (ok n, v) (inr (full, less)) l k =
    rw (full, Sweep.next_pass) (k (total + n) v (omega (arith, less, l)))

-- The loop of ExpirePending ends after at most one batch more than there are overdue requests that
-- it can lock, and unless an error stopped it, it leaves no such request.
pub expire_pending-Swept :
    (fuel : ℕ) (env : Env) (total : ℕ) (w : World)
    → length (due_rows env w.db.sessions) < fuel
    → Swept env (Sweep.expire_pending fuel env total w)
unfolding Sweep.expire_pending
expire_pending-Swept zero env total w l = ground (arith, l)
expire_pending-Swept (suc fuel) env total w l =
    next_pass-Swept env w fuel total (Sweep.expire_pending fuel env) (Sweep.expire_batch env w)
      (expire_batch-BatchDone env w) l (λ t v. expire_pending-Swept fuel env t v)
