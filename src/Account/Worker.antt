-- ===== src/Account/Worker.antt =====
-- Handle, finish and deleted of backend/internal/account/worker.go, and Consume of queue.go for one
-- delivery.
use dating_coach.Base.{ℕ, ◌+◌, Bool, true, false, not, ◌&&◌, List, [], ◌∷◌, if◌then◌else◌}
use dating_coach.Store.Rows.{Time}
use dating_coach.Store.Users.{delete_user, user_row_exists}
use dating_coach.Store.Tokens.{delete_expired_refresh_tokens}
use dating_coach.Store.Deletions.{finish_user_deletion}
use dating_coach.Account.Queue.{
  Body, garbled, misnamed, job, Delivery, Broker, publish_retry, dead_letter, is_last_attempt,
}
use dating_coach.Auth.World.{AuthState, set_users}

-- What answers while one delivery is handled. `revocation` is the time at which a new revocation
-- expires.
pub record WorkerEnv : Type 0 where
  pub revocation : Time
  pub revokes : Bool
  pub looks_up : Bool
  pub deletes : Bool
  pub finishes : Bool
  pub republishes : Bool
  pub acks : Bool

abbrev pub set_broker : AuthState → Broker → AuthState
set_broker s broker = record s { broker = broker }

-- Whether the pass succeeded, and the state after it.
unfoldable pub finish : WorkerEnv → ℕ → AuthState → Bool × AuthState
finish env i s =
    if env.finishes
    then (true, record s { deletions = finish_user_deletion i s.deletions })
    else (false, s)

unfoldable pub deleted : WorkerEnv → ℕ → AuthState → Bool
deleted env i s = env.looks_up && not (user_row_exists i s.users)

abbrev pub revoked_state : WorkerEnv → ℕ → AuthState → AuthState
revoked_state env i s = record s {
  revoked = record { user_id = i; expires_at = env.revocation } ∷ s.revoked;
}

-- The rows go once the sessions are revoked.
unfoldable pub remove : WorkerEnv → ℕ → AuthState → Bool × AuthState
remove env i s =
    if env.deletes then finish env i (set_users s (delete_user i s.users)) else (false, s)

unfoldable pub handle_job : WorkerEnv → ℕ → AuthState → Bool × AuthState
handle_job env i s =
    if env.revokes
    then remove env i (revoked_state env i s)
    else (if deleted env i s then finish env i s else (false, s))

unfoldable pub handle : WorkerEnv → Body → AuthState → Bool × AuthState
handle env garbled s = (false, s)
handle env misnamed s = (false, s)
handle env (job i) s = handle_job env i s

-- The work queue without its first message.
abbrev pub taken_off : List Delivery → AuthState → AuthState
taken_off ds s = set_broker s (record s.broker { work = ds })

-- A delivery whose ack fails, or that is requeued, stays where it was.
abbrev pub acked : WorkerEnv → List Delivery → AuthState → AuthState
acked env ds s = if env.acks then taken_off ds s else s

abbrev pub retried : WorkerEnv → Delivery → List Delivery → AuthState → AuthState
retried env d ds s =
    if env.republishes
    then acked env ds (set_broker s (publish_retry d.body (d.attempts + 1) s.broker))
    else s

abbrev pub rejected : WorkerEnv → Delivery → List Delivery → AuthState → AuthState
rejected env d ds s =
    if env.acks then set_broker s (dead_letter d (record s.broker { work = ds })) else s

unfoldable pub settle : WorkerEnv → Delivery → List Delivery → Bool × AuthState → AuthState
settle env d ds (true, s) = acked env ds s
settle env d ds (false, s) =
    if is_last_attempt (d.attempts + 1) then rejected env d ds s else retried env d ds s

unfoldable pub deliver : WorkerEnv → Body → Delivery → List Delivery → AuthState → AuthState
deliver env garbled d ds s = rejected env d ds s
deliver env misnamed d ds s = settle env d ds (handle env misnamed s)
deliver env (job i) d ds s = settle env d ds (handle env (job i) s)

abbrev pub consume_from : WorkerEnv → List Delivery → AuthState → AuthState
consume_from env [] s = s
consume_from env (d ∷ ds) s = deliver env d.body d ds s

-- One round of the loop of Consume; without a message it waits.
unfoldable pub consume : WorkerEnv → AuthState → AuthState
consume env s = consume_from env s.broker.work s

-- One round of PurgeExpiredRefreshTokens
unfoldable pub purge : Time → AuthState → AuthState
purge now s = record s { tokens = delete_expired_refresh_tokens now s.tokens }
