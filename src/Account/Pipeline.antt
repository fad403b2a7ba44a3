-- ===== src/Account/Pipeline.antt =====
-- The steps that a deletion goes through: DELETE /me of backend/internal/auth/service.go, the relay
-- and the worker of backend/internal/account, and the expiry of the retry queue.
use dating_coach.Store.Rows.{Time}
use dating_coach.Base.{
  ℕ, Bool, true, false, ◌≡◌, refl, ap, arith, inl, inr, List, [], ◌∷◌, any, All-map, Bool-cases,
}
use dating_coach.Store.Users.{Users, user_row_exists}
use dating_coach.Store.Deletions.{Deletions, request_user_deletion, mark_deletion_published}
use dating_coach.Account.Queue.{expire_from, Delivery, Broker, publish_job, expire_retry}
use dating_coach.Account.Worker.{WorkerEnv, set_broker, consume}
use dating_coach.Account.Relay.{RelayEnv, publish_all, drain, marked_published}
use dating_coach.Account.Tracking.{
  carries, queued, IsTracked, HoldsMore, any-append, publish_job-HoldsMore, publish_job-queued,
  mark-IsPursued, mark-recorded,
}
use dating_coach.Account.Rounds.{holds-IsTracked, consume-IsTracked}
use dating_coach.Account.Requested.{record_deletion-IsPursued, marked-IsRecorded}
use dating_coach.Auth.World.{queue_job, AuthService, AuthEnv, AuthState}
use dating_coach.Auth.Accounts.{revoke_tokens, delete_account, recorded, queue_deletion, deny}

pub data Step (s : AuthState) : AuthState → Type 0 where
  accepts : (svc : AuthService) (env : AuthEnv) (i : ℕ) → Step s (delete_account svc env i s).1
  relays : (env : RelayEnv) → Step s (drain env s)
  consumes : (env : WorkerEnv) → Step s (consume env s)
  expires : Step s (set_broker s (expire_retry s.broker))

pub data Reach (s : AuthState) : AuthState → Type 0 where
  here : Reach s s
  next : {t u : AuthState} → Reach s t → Step t u → Reach s u

-- A job is queued, then its row is marked.
queued-IsTracked :
    (i : ℕ) (s : AuthState) → IsTracked s → IsTracked (set_broker s (publish_job i s.broker))
queued-IsTracked i s h =
    holds-IsTracked s (publish_job i s.broker) (publish_job-HoldsMore i s.broker) h

marked-IsTracked :
    (now : Time) (i : ℕ) (s : AuthState)
    → queued i s.broker ≡ true
    → IsTracked s
    → IsTracked (record s { deletions = mark_deletion_published i now s.deletions })
marked-IsTracked now i s q (p, r) = (
  mark-IsPursued i now s.broker s.deletions q p,
  All-map (λ u k. let e = mark-recorded i u.id now s.deletions in ground (arith, e, k)) s.users r,
)

publish_all-IsTracked :
    (env : RelayEnv) (is : List ℕ) (s : AuthState) → IsTracked s → IsTracked (publish_all env is s)
unfolding publish_all
publish_all-IsTracked env [] s h = h
publish_all-IsTracked env (i ∷ is) s h =
    let q = queued-IsTracked i s h in
    let m =
      marked-IsTracked env.now i (set_broker s (publish_job i s.broker))
        (publish_job-queued i s.broker) q in
    let rest =
      publish_all-IsTracked env is (marked_published env i (set_broker s (publish_job i s.broker)))
        m in
    elim (Bool-cases (env.publishes i)) [
      | inr p ↦ simp p h
      | inl p ↦ elim (Bool-cases (env.marks i)) [ inl n ↦ simp (p, n) rest | inr n ↦ simp (p, n) q ]
    ]

expire_from-HoldsMore :
    (b : Broker) (retry : List Delivery) → b.retry ≡ retry → HoldsMore b (expire_from retry b)
expire_from-HoldsMore b [] e j h = h
expire_from-HoldsMore b (d ∷ ds) e j h =
    let a = any-append (carries j) b.work (d ∷ []) in
    let w = ap (any (carries j)) e in ground (arith, a, w, h)

expire-IsTracked : (s : AuthState) → IsTracked s → IsTracked (set_broker s (expire_retry s.broker))
unfolding expire_retry
expire-IsTracked s h =
    holds-IsTracked s (expire_from s.broker.retry s.broker)
      (expire_from-HoldsMore s.broker s.broker.retry refl) h

queue_deletion-IsTracked :
    (env : AuthEnv) (i : ℕ) (s : AuthState) → IsTracked s → IsTracked (queue_deletion env i s)
unfolding queue_deletion
queue_deletion-IsTracked env i s h =
    let q = queued-IsTracked i s h in
    let m =
      marked-IsTracked env.db_now i (set_broker s (publish_job i s.broker))
        (publish_job-queued i s.broker) q in
    elim (Bool-cases (env.answers queue_job)) [
      | inr p ↦ simp p h
      | inl p ↦ elim (Bool-cases env.marks_published) [
        | inl n ↦ simp (p, n) m
        | inr n ↦ simp (p, n) q
      ]
    ]

-- Tokens and revocations are not looked at.
revoking-IsTracked :
    (svc : AuthService) (env : AuthEnv) (i : ℕ) (s : AuthState)
    → IsTracked s
    → IsTracked (deny svc env i (revoke_tokens env i s))
unfolding deny
revoking-IsTracked svc env i s h = ground (arith, h)

recorded-IsTracked :
    (svc : AuthService) (env : AuthEnv) (i : ℕ) (r : Bool × Users × Deletions) (s : AuthState)
    → (r.0 ≡ true → IsTracked (record s { users = r.1; deletions = r.2 }))
    → IsTracked s
    → IsTracked (recorded svc env i r s).1
recorded-IsTracked svc env i (true, users, rows) s k h =
    queue_deletion-IsTracked env i _
      (revoking-IsTracked svc env i (record s { users = users; deletions = rows }) (k refl))
recorded-IsTracked svc env i (false, users, rows) s k h = h

delete_account-IsTracked :
    (svc : AuthService) (env : AuthEnv) (i : ℕ) (s : AuthState)
    → IsTracked s
    → IsTracked (delete_account svc env i s).1
unfolding delete_account request_user_deletion
delete_account-IsTracked svc env i s (p, r) =
    let p' = record_deletion-IsPursued i env.db_now s.broker s.deletions p in
    let r' = marked-IsRecorded i env.db_now s.deletions s.users r in
    elim (Bool-cases (user_row_exists i s.users)) [
      | inl e ↦ simp e (recorded-IsTracked svc env i (true, _, _) s (λ x. (p', r')) (p, r))
      | inr e ↦ simp e (p, r)
    ]

pub Step-IsTracked : (s t : AuthState) → Step s t → IsTracked s → IsTracked t
unfolding drain
Step-IsTracked s t (accepts svc env i) h = delete_account-IsTracked svc env i s h
Step-IsTracked s t (relays env) h = publish_all-IsTracked env _ s h
Step-IsTracked s t (consumes env) h = consume-IsTracked env s h
Step-IsTracked s t expires h = expire-IsTracked s h

-- A deletion that was accepted is never lost. Through any sequence of accepted deletions, passes of
-- the relay, rounds of the worker and expiries of the retry queue, with any failure of Redis, the
-- database, the broker's publishes and its acknowledgements along the way: every account that is marked
-- deleted still has its row in the outbox, and every row of the outbox still waits to be published or
-- has its job in the work, the retry or the dead-letter queue.
pub Reach-IsTracked : (s t : AuthState) → Reach s t → IsTracked s → IsTracked t
Reach-IsTracked s t here h = h
Reach-IsTracked s t (next r step) h = Step-IsTracked _ t step (Reach-IsTracked s _ r h)
