-- ===== src/Auth/World.antt =====
-- What a request of the auth service runs in: the tables it writes, the codes in Redis, the queue of
-- deletions, and the collaborators of auth.Service (backend/internal/auth/service.go).
use dating_coach.Base.{ℕ, Bool, Option, List, String, if◌then◌else◌, ◌==◌}
use dating_coach.Base.Outcomes.{Outcome, done, failed, Run}
use dating_coach.Store.Rows.{Time}
use dating_coach.Store.Users.{Users, Role}
use dating_coach.Store.Tokens.{Tokens}
use dating_coach.Store.Deletions.{Deletions}
use dating_coach.Account.Queue.{Broker}

-- The scope of a token (jwt.go); tokens from before scopes existed carry none.
pub data Scope : Type 0 where
  verify_scope session_scope no_scope : Scope

pub record Claims : Type 0 where
  pub subject : ℕ
  pub role : Role
  pub email : String
  pub scope : Scope
  pub expires_at : Time

-- A Redis value that is dropped when its time has come.
pub record Code : Type 0 where
  pub value : String
  pub expires_at : Time

pub record Counter : Type 0 where
  pub count : ℕ
  pub expires_at : Time

-- The two keys of one user in Redis (verifycache.go).
pub record Entry : Type 0 where
  pub code : Option Code
  pub attempts : Option Counter

pub record Revocation : Type 0 where
  pub user_id : ℕ
  pub expires_at : Time

pub record AuthState : Type 0 where
  pub users : Users
  pub tokens : Tokens
  pub deletions : Deletions
  pub codes : ℕ → Entry
  pub revoked : List Revocation
  pub broker : Broker
  pub mails : List (String × String)

pub data AuthError : Type 0 where
  email_taken invalid_credentials invalid_input invalid_code email_not_verified : AuthError
  google_disabled google_refused invalid_refresh_token internal : AuthError

pub record GoogleIdentity : Type 0 where
  pub email : String
  pub name : String

-- Third-party and library code: bcrypt, SHA-256, JWT, net/mail, strings.TrimSpace, ToLower and Cut,
-- and Google's keys. `verify` is none while no verifier is configured.
pub record AuthService : Type 0 where
  pub hash_password : String → Option String
  pub matches : String → String → Bool
  pub hash_token : String → String
  pub issue : Claims → Option String
  pub parse : Time → String → Option Claims
  pub valid_email : String → Bool
  pub trim : String → String
  pub lower : String → String
  pub local_part : String → String
  pub verify : Option (String → Option GoogleIdentity)
  pub session_ttl : Time
  pub verify_ttl : Time
  pub refresh_ttl : Time
  pub has_denylist : Bool
  pub denylist_ttl : Time

-- The calls of Redis and of the broker that may fail.
pub data Remote : Type 0 where
  read_code count_attempt drop_code store_code revoke_account queue_job : Remote

-- One request: the clocks, the random values, the fresh keys, which remote calls answer, whether a
-- commit succeeds, and whether the statements succeed whose failure the code only logs.
pub record AuthEnv : Type 0 where
  pub now : Time
  pub db_now : Time
  pub random_token : Option String
  pub random_code : Option String
  pub user_id : ℕ
  pub token_id : ℕ
  pub family_id : ℕ
  pub answers : Remote → Bool
  pub commits : Bool
  pub revokes_tokens : Bool
  pub marks_published : Bool
  pub clean_up : Bool

abbrev pub AuthRun : Type 0 → Type 0
AuthRun A = Run AuthState AuthError A

abbrev pub set_users : AuthState → Users → AuthState
set_users s users = record s { users = users }

abbrev pub set_tokens : AuthState → Tokens → AuthState
set_tokens s tokens = record s { tokens = tokens }

abbrev pub set_entry : AuthState → ℕ → Entry → AuthState
set_entry s i e = record s { codes = λ j. if j == i then e else s.codes j }

-- Begin, run, commit: a failure restores the state.
abbrev pub settle_auth :
    {A : Type 0}
    → AuthEnv
    → AuthState
    → Outcome AuthError A × AuthState
    → Outcome AuthError A × AuthState
settle_auth env s (done a, s') = if env.commits then (done a, s') else (failed internal, s)
settle_auth env s (failed e, s') = (failed e, s)

abbrev pub auth_transaction : {A : Type 0} → AuthEnv → AuthRun A → AuthRun A
auth_transaction env m s = settle_auth env s (m s)

-- normalised address: strings.ToLower(strings.TrimSpace(email))
abbrev pub address : AuthService → String → String
address svc email = svc.lower (svc.trim email)
