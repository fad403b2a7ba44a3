-- ===== src/Account/Queue.antt =====
-- The queues of backend/internal/account/queue.go: the work queue, the retry queue that nothing
-- consumes and whose messages expire back onto the work queue, and the dead-letter queue.
use dating_coach.Base.{ℕ, Bool, List, [], ◌∷◌, ◌++◌, leb}

abbrev pub max_attempts : ℕ
max_attempts = 20

-- A message: one that does not decode, one whose user id does not parse, or a job.
pub data Body : Type 0 where
  garbled misnamed : Body
  job : ℕ → Body

-- `attempts` is the header, 0 where attemptsOf reads none.
pub record Delivery : Type 0 where
  pub body : Body
  pub attempts : ℕ

pub record Broker : Type 0 where
  pub work : List Delivery
  pub retry : List Delivery
  pub dead : List Delivery

-- Publish, confirmed
unfoldable pub publish_job : ℕ → Broker → Broker
publish_job i b = record b { work = b.work ++ (record { body = job i; attempts = 0 } ∷ []) }

-- The publish of Consume, confirmed
unfoldable pub publish_retry : Body → ℕ → Broker → Broker
publish_retry body attempts b = record b {
  retry = b.retry ++ (record { body = body; attempts = attempts } ∷ []);
}

-- A rejected delivery.
abbrev pub dead_letter : Delivery → Broker → Broker
dead_letter d b = record b { dead = b.dead ++ (d ∷ []) }

abbrev pub expire_from : List Delivery → Broker → Broker
expire_from [] b = b
expire_from (d ∷ ds) b = record b { work = b.work ++ (d ∷ []); retry = ds }

-- The time to live of the first message of the retry queue ran out.
unfoldable pub expire_retry : Broker → Broker
expire_retry b = expire_from b.retry b

abbrev pub is_last_attempt : ℕ → Bool
is_last_attempt attempts = leb max_attempts attempts
