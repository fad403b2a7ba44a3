-- ===== src/Account/Fulfilled.antt =====
-- Recorded deletions are carried out (backend/internal/account).
use dating_coach.Base.{
  zero, suc, ℕ, ◌≤◌, Bool, true, false, ◌||◌, ◌≡◌, refl, ap, sym, subst, ◌∙◌, arith, inl, inr, [],
  ◌∷◌, any, All, All-map, length, select, Bool-cases,
}
use dating_coach.Store.Users.{User, is_live}
use dating_coach.Store.Deletions.{Deletions, recorded_for}
use dating_coach.Account.Queue.{Broker}
use dating_coach.Account.Worker.{WorkerEnv, consume}
use dating_coach.Account.Relay.{RelayEnv, drain, relay_batch}
use dating_coach.Account.Tracking.{carries, IsTracked, IsPursued}
use dating_coach.Account.Rounds.{consume-IsTracked}
use dating_coach.Account.Pipeline.{Step-IsTracked, relays}
use dating_coach.Account.Completion.{
  IsHealthy, IsPublished, parked, consume_times, consume_times-IsRound,
}
use dating_coach.Account.Drained.{IsReachable, drain-IsPublished}
use dating_coach.Auth.World.{AuthState}

-- One pass of the relay, and a round of the worker for each message that then waits.
abbrev pub pass : RelayEnv → WorkerEnv → AuthState → AuthState
pass relay worker s = consume_times worker (length (drain relay s).broker.work) (drain relay s)

consume_times-IsTracked :
    (env : WorkerEnv) (n : ℕ) (s : AuthState) → IsTracked s → IsTracked (consume_times env n s)
consume_times-IsTracked env zero s h = h
consume_times-IsTracked env (suc n) s h =
    consume_times-IsTracked env n (consume env s) (consume-IsTracked env s h)

-- With an empty work queue, a published row's job is parked.
row_parked :
    (b : Broker) (i : ℕ) (rows : Deletions)
    → b.work ≡ []
    → All (IsPursued b) rows
    → All IsPublished rows
    → any (recorded_for i) rows ≡ true
    → parked i b ≡ true
row_parked b i [] w p q r = ground (arith, r)
row_parked b i (d ∷ rows) w p q r = elim (Bool-cases (recorded_for i d)) [
  | inr n ↦ row_parked b i rows w p.1 q.1 (ground (arith, n, r))
  | inl n ↦
      let p0 = p.0 in
      let q0 = q.0 in
      let v = ap (any (carries d.user_id)) w in
      let k : parked d.user_id b ≡ true = ground (arith, p0, q0, v) in
      let m : d.user_id ≡ i = ground (arith, n) in subst (λ j. parked j b ≡ true) m k
]

-- What is left of a user who is marked.
left_over :
    (live recorded now between before : Bool)
    → (live || recorded) ≡ true
    → (recorded ≡ true → now ≡ true)
    → now ≡ between
    → between ≡ before
    → (live || before) ≡ true
left_over true recorded now between before e m n o = refl
left_over false recorded now between before e m n o = sym o ∙ sym n ∙ m e

-- While the dependencies answer, deletions are carried out: from a tracked state, when at most one
-- batch of 100 rows waits in the outbox, one pass of the relay and one round of the worker for each
-- queued message leave no account that is marked deleted, except those whose job already waited for a
-- retry or was a dead letter.
pub deletions_are_carried_out :
    (relay : RelayEnv) (worker : WorkerEnv) (s : AuthState)
    → IsTracked s
    → IsReachable relay
    → IsHealthy worker
    → length (select (λ d. is_live d.published_at) s.deletions) ≤ relay_batch
    → All
        (λ (u : User). (is_live u.deleted_at || parked u.id s.broker) ≡ true)
        (pass relay worker s).users
deletions_are_carried_out relay worker s t r h l =
    let (p, k) = drain-IsPublished relay s r l in
    let (w, k', p') =
      consume_times-IsRound worker (drain relay s).broker.work (drain relay s) h refl in
    let (a, b) =
      consume_times-IsTracked worker (length (drain relay s).broker.work) (drain relay s)
        (Step-IsTracked s (drain relay s) (relays relay) t) in
    let after = pass relay worker s in
    All-map
      (λ u e.
        left_over (is_live u.deleted_at) (any (recorded_for u.id) after.deletions)
          (parked u.id after.broker) (parked u.id (drain relay s).broker) (parked u.id s.broker) e
          (row_parked after.broker u.id after.deletions w a (p' p)) (k' u.id) (k u.id))
      after.users b
