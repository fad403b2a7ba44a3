-- ===== src/Account/Relay.antt =====
-- Drain of backend/internal/account/relay.go.
use dating_coach.Base.{ℕ, Bool, List, [], ◌∷◌, if◌then◌else◌}
use dating_coach.Store.Rows.{Time}
use dating_coach.Store.Deletions.{pending_deletions, mark_deletion_published}
use dating_coach.Account.Queue.{publish_job}
use dating_coach.Account.Worker.{set_broker}
use dating_coach.Auth.World.{AuthState}

abbrev pub relay_batch : ℕ
relay_batch = 100

-- For each user: whether the broker confirms the job, and whether the mark is written.
pub record RelayEnv : Type 0 where
  pub now : Time
  pub publishes : ℕ → Bool
  pub marks : ℕ → Bool

abbrev pub marked_published : RelayEnv → ℕ → AuthState → AuthState
marked_published env i s = record s { deletions = mark_deletion_published i env.now s.deletions }

-- The loop stops at the first failure.
unfoldable pub publish_all : RelayEnv → List ℕ → AuthState → AuthState
publish_all env [] s = s
publish_all env (i ∷ is) s =
    let queued = set_broker s (publish_job i s.broker) in
    let rest = publish_all env is (marked_published env i queued) in
    if env.publishes i then (if env.marks i then rest else queued) else s

unfoldable pub drain : RelayEnv → AuthState → AuthState
drain env s = publish_all env (pending_deletions relay_batch s.deletions) s
