-- ===== src/Account/Rounds.antt =====
-- A round of the worker keeps track of every recorded deletion (Consume of
-- backend/internal/account/queue.go).
use dating_coach.Base.{
  ◌∙◌, ℕ, ◌+◌, Bool, true, false, not, ◌≡◌, refl, sym, ap, subst, arith, inl, inr, List, [], ◌∷◌,
  any, All, All-select, Bool-cases,
}
use dating_coach.Store.Deletions.{recorded_for, finish_user_deletion}
use dating_coach.Account.Queue.{
  Body, garbled, misnamed, job, Delivery, Broker, publish_retry, dead_letter, is_last_attempt,
}
use dating_coach.Account.Worker.{
  consume_from, WorkerEnv, handle, handle_job, settle, deliver, consume, retried, rejected,
  set_broker,
}
use dating_coach.Account.Tracking.{
  carries, IsPursued, IsRecorded, IsTracked, HoldsMore, HoldsMore-IsPursued, any-append,
}
use dating_coach.Auth.World.{AuthState}
use dating_coach.Account.Deliveries.{
  IsApplied, applied-All, handle_job-IsApplied, others-IsPursued, others-IsRecorded,
}

-- A failed delivery moves to another queue.
retry-HoldsMore :
    (b : Broker) (d : Delivery) (ds : List Delivery) (n : ℕ)
    → b.work ≡ d ∷ ds
    → HoldsMore b (record (publish_retry d.body n b) { work = ds })
unfolding publish_retry
retry-HoldsMore b d ds n e j h =
    let a = any-append (carries j) b.retry (record { body = d.body; attempts = n } ∷ []) in
    let w = ap (any (carries j)) e in ground (arith, a, w, h)

dead-HoldsMore :
    (b : Broker) (d : Delivery) (ds : List Delivery)
    → b.work ≡ d ∷ ds
    → HoldsMore b (dead_letter d (record b { work = ds }))
dead-HoldsMore b d ds e j h =
    let a = any-append (carries j) b.dead (d ∷ []) in
    let w = ap (any (carries j)) e in ground (arith, a, w, h)

retry_only-HoldsMore : (b : Broker) (d : Delivery) (n : ℕ) → HoldsMore b (publish_retry d.body n b)
unfolding publish_retry
retry_only-HoldsMore b d n j h =
    let a = any-append (carries j) b.retry (record { body = d.body; attempts = n } ∷ []) in
    ground (arith, a, h)

pub holds-IsTracked :
    (s : AuthState) (c : Broker) → HoldsMore s.broker c → IsTracked s → IsTracked (set_broker s c)
holds-IsTracked s c k (p, r) = (HoldsMore-IsPursued s.broker c s.deletions k p, r)

rejected-IsTracked :
    (env : WorkerEnv) (d : Delivery) (ds : List Delivery) (s : AuthState)
    → s.broker.work ≡ d ∷ ds
    → IsTracked s
    → IsTracked (rejected env d ds s)
rejected-IsTracked env d ds s e h =
    let k =
      holds-IsTracked s (dead_letter d (record s.broker { work = ds }))
        (dead-HoldsMore s.broker d ds e) h in
    elim (Bool-cases env.acks) [ inl a ↦ rw a k | inr a ↦ rw a h ]

retried-IsTracked :
    (env : WorkerEnv) (d : Delivery) (ds : List Delivery) (s : AuthState)
    → s.broker.work ≡ d ∷ ds
    → IsTracked s
    → IsTracked (retried env d ds s)
retried-IsTracked env d ds s e h =
    let k =
      holds-IsTracked s (record (publish_retry d.body (d.attempts + 1) s.broker) { work = ds })
        (retry-HoldsMore s.broker d ds (d.attempts + 1) e) h in
    let m =
      holds-IsTracked s (publish_retry d.body (d.attempts + 1) s.broker)
        (retry_only-HoldsMore s.broker d (d.attempts + 1)) h in
    elim (Bool-cases env.republishes) [
      | inr r ↦ rw r h
      | inl r ↦ elim (Bool-cases env.acks) [ inl a ↦ rw r (rw a k) | inr a ↦ rw r (rw a m) ]
    ]

failed-IsTracked :
    (env : WorkerEnv) (d : Delivery) (ds : List Delivery) (s : AuthState)
    → s.broker.work ≡ d ∷ ds
    → IsTracked s
    → IsTracked (settle env d ds (false, s))
unfolding settle
failed-IsTracked env d ds s e h = elim (Bool-cases (is_last_attempt (d.attempts + 1))) [
  | inl l ↦ rw l (rejected-IsTracked env d ds s e h)
  | inr l ↦ rw l (retried-IsTracked env d ds s e h)
]

-- A pass itself, before the delivery is acknowledged.
applied-IsTracked :
    (i : ℕ) (s : AuthState) (r : Bool × AuthState) → IsApplied i s r → IsTracked s → IsTracked r.1
unfolding finish_user_deletion
applied-IsTracked i s (true, s') (b, d, k, u) (p, r) = (
  rw b (rw d (All-select (IsPursued s.broker) (λ d. not (recorded_for i d)) s.deletions p)),
  rw d (
      others-IsRecorded i s.deletions s'.users (k refl)
        (applied-All (IsRecorded s.deletions) i s (true, s') (b, d, k, u) r)),
)
applied-IsTracked i s (false, s') (b, d, k, u) (p, r) =
    (rw b (rw d p), rw d (applied-All (IsRecorded s.deletions) i s (false, s') (b, d, k, u) r))

taken_off-IsPursued :
    (i : ℕ) (s s' : AuthState) (ds : List Delivery)
    → s'.broker ≡ s.broker
    → s'.deletions ≡ finish_user_deletion i s.deletions
    → All (IsPursued (record s.broker { work = ds })) (finish_user_deletion i s.deletions)
    → All (IsPursued (record s'.broker { work = ds })) s'.deletions
taken_off-IsPursued i s s' ds b d h =
    subst (λ c. All (IsPursued (record c { work = ds })) s'.deletions) (sym b)
      (subst (All (IsPursued (record s.broker { work = ds }))) (sym d) h)

settled-IsTracked :
    (env : WorkerEnv) (i : ℕ) (d : Delivery) (ds : List Delivery) (s : AuthState)
    (r : Bool × AuthState)
    → s.broker.work ≡ d ∷ ds
    → d.body ≡ job i
    → IsApplied i s r
    → IsTracked s
    → IsTracked (settle env d ds r)
unfolding settle
settled-IsTracked env i d ds s (true, s') e o a h =
    let (p, r) = applied-IsTracked i s (true, s') a h in
    let q =
      taken_off-IsPursued i s s' ds a.0 a.1
        (others-IsPursued i s.broker d ds s.deletions e o h.0) in
    elim (Bool-cases env.acks) [ inr n ↦ simp n (p, r) | inl n ↦ simp n (q, r) ]
settled-IsTracked env i d ds s (false, s') e o a h =
    failed-IsTracked env d ds s' (ap (λ b. b.work) a.0 ∙ e) (applied-IsTracked i s (false, s') a h)

deliver-IsTracked :
    (env : WorkerEnv) (body : Body) (d : Delivery) (ds : List Delivery) (s : AuthState)
    → d.body ≡ body
    → s.broker.work ≡ d ∷ ds
    → IsTracked s
    → IsTracked (deliver env body d ds s)
unfolding deliver handle
deliver-IsTracked env garbled d ds s o e h = rejected-IsTracked env d ds s e h
deliver-IsTracked env misnamed d ds s o e h = failed-IsTracked env d ds s e h
deliver-IsTracked env (job i) d ds s o e h =
    settled-IsTracked env i d ds s (handle_job env i s) e o (handle_job-IsApplied env i s) h

consume_from-IsTracked :
    (env : WorkerEnv) (work : List Delivery) (s : AuthState)
    → s.broker.work ≡ work
    → IsTracked s
    → IsTracked (consume_from env work s)
consume_from-IsTracked env [] s e h = h
consume_from-IsTracked env (d ∷ ds) s e h = deliver-IsTracked env d.body d ds s refl e h

pub consume-IsTracked : (env : WorkerEnv) (s : AuthState) → IsTracked s → IsTracked (consume env s)
unfolding consume
consume-IsTracked env s h = consume_from-IsTracked env s.broker.work s refl h
