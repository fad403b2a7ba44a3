-- ===== src/Auth/Accounts.antt =====
-- SignUp and DeleteAccount of backend/internal/auth/service.go.
use dating_coach.Account.Queue.{publish_job}
use Prim.Native.String.{len}
use dating_coach.Base.{
  ℕ, ◌+◌, Bool, true, false, not, Option, none, some, ◌∷◌, String, text_eq, leb, ◌&&◌,
  if◌then◌else◌,
}
use dating_coach.Base.Outcomes.{done, failed, ◌>>=◌, ◌>>◌, give, check, demand}
use dating_coach.Store.Users.{User, Users, Role, CreateUserParams, insert_user, delete_user}
use dating_coach.Store.Tokens.{revoke_user_refresh_tokens}
use dating_coach.Store.Deletions.{Deletions, request_user_deletion, mark_deletion_published}
use dating_coach.Auth.World.{
  AuthService, AuthEnv, AuthState, invalid_input, email_taken, internal, AuthRun, verify_scope,
  store_code, revoke_account, queue_job, set_users, set_tokens, set_entry, address,
}
use dating_coach.Auth.Codes.{store_entry}
use dating_coach.Auth.Sessions.{Session, profile_of, claims_for, role_or_user, may_choose}
use dating_coach.Auth.Verification.{verification_code_ttl}

-- `role` is parsed: none for an empty text.
pub record SignUpInput : Type 0 where
  pub email : String
  pub password : String
  pub display_name : String
  pub role : Option Role

abbrev pub stored : Option (User × Users) → AuthRun User
stored none s = (failed email_taken, s)
stored (some (user, users)) s = (done user, set_users s users)

-- The row and the code exist together: a failed store takes the row out again.
unfoldable pub store_first_code : AuthEnv → User → String → AuthRun (Unit {0})
store_first_code env user code s =
    if env.answers store_code
    then (
      done tt,
      record (set_entry s user.id (store_entry env.now verification_code_ttl code)) {
        mails = (user.email, code) ∷ s.mails;
      },
    )
    else (failed internal, if env.clean_up then set_users s (delete_user user.id s.users) else s)

abbrev pub sign_up_params : AuthService → SignUpInput → String → CreateUserParams
sign_up_params svc input hash = record {
  email = address svc input.email;
  password_hash = hash;
  display_name = svc.trim input.display_name;
  role = role_or_user input.role;
}

-- A token that reaches /auth only.
unfoldable pub verify_session : AuthService → AuthEnv → User → AuthRun Session
verify_session svc env user = do
  token ← demand (svc.issue (claims_for env user verify_scope svc.verify_ttl)) internal
  give (record {
    token = token;
    refresh_token = "";
    expires_at = env.now + svc.verify_ttl;
    user = profile_of user;
  })

unfoldable pub welcome : AuthService → AuthEnv → User → String → AuthRun Session
welcome svc env user code = do store_first_code env user code; verify_session svc env user

unfoldable pub register : AuthService → AuthEnv → SignUpInput → String → String → AuthRun Session
register svc env input hash code = do
  user ← λ s.
      stored (insert_user env.user_id env.db_now false (sign_up_params svc input hash) s.users) s
  welcome svc env user code

unfoldable pub sign_up : AuthService → AuthEnv → SignUpInput → AuthRun Session
sign_up svc env input = do
  check (svc.valid_email (address svc input.email)) invalid_input
  check (leb 8 (len input.password)) invalid_input
  check (not (text_eq (svc.trim input.display_name) "")) invalid_input
  check (may_choose (role_or_user input.role)) invalid_input
  hash ← demand (svc.hash_password input.password) internal
  code ← demand env.random_code internal
  register svc env input hash code

-- The steps after the record are attempts: a failure is logged and left to the relay and the worker.
abbrev pub revoke_tokens : AuthEnv → ℕ → AuthState → AuthState
revoke_tokens env i s =
    if env.revokes_tokens then set_tokens s (revoke_user_refresh_tokens i s.tokens) else s

unfoldable pub deny : AuthService → AuthEnv → ℕ → AuthState → AuthState
deny svc env i s =
    if svc.has_denylist && env.answers revoke_account
    then record s {
      revoked = record { user_id = i; expires_at = env.now + svc.denylist_ttl } ∷ s.revoked;
    }
    else s

unfoldable pub queue_deletion : AuthEnv → ℕ → AuthState → AuthState
queue_deletion env i s =
    if env.answers queue_job
    then record s {
      broker = publish_job i s.broker;
      deletions =
          if env.marks_published
          then mark_deletion_published i env.db_now s.deletions
          else s.deletions;
    }
    else s

abbrev pub recorded : AuthService → AuthEnv → ℕ → Bool × Users × Deletions → AuthRun (Unit {0})
recorded svc env i (false, users, deletions) s = (done tt, s)
recorded svc env i (true, users, deletions) s = (
  done tt,
  queue_deletion env i
      (deny svc env i (revoke_tokens env i (record s { users = users; deletions = deletions }))),
)

unfoldable pub delete_account : AuthService → AuthEnv → ℕ → AuthRun (Unit {0})
delete_account svc env i s =
    recorded svc env i (request_user_deletion i env.db_now s.users s.deletions) s
