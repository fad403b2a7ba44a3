-- ===== src/Account/Completion.antt =====
-- A healthy pass of the relay and the worker (backend/internal/account): every dependency answers.
use dating_coach.Base.{
  ◌∙◌, not, ℕ, zero, suc, ◌+◌, Bool, true, false, ◌||◌, ◌≡◌, refl, subst, sym, arith, inl, inr,
  List, [], ◌∷◌, any, All, All-select, length, Bool-cases,
}
use dating_coach.Store.Users.{is_live}
use dating_coach.Store.Deletions.{DeletionRow, finish_user_deletion, recorded_for}
use dating_coach.Account.Queue.{
  Body, garbled, misnamed, job, Delivery, Broker, publish_retry, is_last_attempt,
}
use dating_coach.Account.Worker.{
  WorkerEnv, consume, consume_from, deliver, handle, handle_job, remove, finish, settle, rejected,
}
use dating_coach.Account.Tracking.{carries, any-append}
use dating_coach.Auth.World.{AuthState}

pub record IsHealthy (env : WorkerEnv) : Type 0 where
  pub revokes : env.revokes ≡ true
  pub deletes : env.deletes ≡ true
  pub finishes : env.finishes ≡ true
  pub republishes : env.republishes ≡ true
  pub acks : env.acks ≡ true

-- A job that the worker does not come to: it waits for its retry, or is a dead letter.
abbrev pub parked : ℕ → Broker → Bool
parked i b = any (carries i) b.retry || any (carries i) b.dead

abbrev pub IsPublished : DeletionRow → Type 0
IsPublished d = is_live d.published_at ≡ false

-- What a healthy round does.
abbrev pub IsRound : List Delivery → AuthState → AuthState → Type 0
IsRound ds s t =
    (t.broker.work ≡ ds)
    × ((i : ℕ) → parked i t.broker ≡ parked i s.broker)
    × (All IsPublished s.deletions → All IsPublished t.deletions)

garbled-IsRound :
    (env : WorkerEnv) (d : Delivery) (ds : List Delivery) (s : AuthState)
    → IsHealthy env
    → ((i : ℕ) → carries i d ≡ false)
    → IsRound ds s (rejected env d ds s)
garbled-IsRound env d ds s h n = simp h.acks (
  refl,
  (λ i.
      let a = any-append (carries i) s.broker.dead (d ∷ []) in let m = n i in ground (arith, a, m)),
  λ p. p,
)

failed-IsRound :
    (env : WorkerEnv) (d : Delivery) (ds : List Delivery) (s : AuthState)
    → IsHealthy env
    → ((i : ℕ) → carries i d ≡ false)
    → IsRound ds s (settle env d ds (false, s))
unfolding settle publish_retry
failed-IsRound env d ds s h n = elim (Bool-cases (is_last_attempt (d.attempts + 1))) [
  | inl l ↦ rw l (garbled-IsRound env d ds s h n)
  | inr l ↦
      simp (l, h.republishes, h.acks)
        (
          refl,
          (λ i.
              let a =
                any-append (carries i) s.broker.retry
                  (record { body = d.body; attempts = d.attempts + 1 } ∷ []) in
              let m = n i in ground (arith, a, m)),
          λ p. p,
        )
]

job-IsRound :
    (env : WorkerEnv) (i : ℕ) (d : Delivery) (ds : List Delivery) (s : AuthState)
    → IsHealthy env
    → IsRound ds s (settle env d ds (handle_job env i s))
unfolding settle handle_job remove finish finish_user_deletion
job-IsRound env i d ds s h =
    simp (h.revokes, h.deletes, h.finishes, h.acks)
      (refl, (λ j. refl), λ p. All-select IsPublished (λ d. not (recorded_for i d)) s.deletions p)

deliver-IsRound :
    (env : WorkerEnv) (body : Body) (d : Delivery) (ds : List Delivery) (s : AuthState)
    → IsHealthy env
    → d.body ≡ body
    → IsRound ds s (deliver env body d ds s)
unfolding deliver handle
deliver-IsRound env garbled d ds s h e = garbled-IsRound env d ds s h (λ i. rw e refl)
deliver-IsRound env misnamed d ds s h e = failed-IsRound env d ds s h (λ i. rw e refl)
deliver-IsRound env (job i) d ds s h e = job-IsRound env i d ds s h

abbrev pub consume_times : WorkerEnv → ℕ → AuthState → AuthState
consume_times env zero s = s
consume_times env (suc n) s = consume_times env n (consume env s)

consume-IsRound :
    (env : WorkerEnv) (d : Delivery) (ds : List Delivery) (s : AuthState)
    → IsHealthy env
    → s.broker.work ≡ d ∷ ds
    → IsRound ds s (consume env s)
unfolding consume
consume-IsRound env d ds s h e =
    subst (λ work. IsRound ds s (consume_from env work s)) (sym e)
      (deliver-IsRound env d.body d ds s h refl)

-- As many rounds as there are messages empty the work queue.
pub consume_times-IsRound :
    (env : WorkerEnv) (work : List Delivery) (s : AuthState)
    → IsHealthy env
    → s.broker.work ≡ work
    → IsRound [] s (consume_times env (length work) s)
consume_times-IsRound env [] s h e = (e, (λ i. refl), λ p. p)
consume_times-IsRound env (d ∷ ds) s h e =
    let (w, k, p) = consume-IsRound env d ds s h e in
    let (w', k', p') = consume_times-IsRound env ds (consume env s) h w in
    (w', (λ i. k' i ∙ k i), λ x. p' (p x))
