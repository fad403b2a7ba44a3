-- ===== src/Auth/Sessions.antt =====
-- openSession, issueRefreshToken and Refresh of backend/internal/auth/refresh.go, SignIn and
-- SignInWithGoogle of service.go: how a session is opened and renewed.
use dating_coach.Base.{
  ℕ, ◌+◌, Bool, true, false, not, Option, none, some, List, String, text_eq, is_some, if◌then◌else◌,
}
use dating_coach.Base.Outcomes.{
  done, failed, ◌>>=◌, ◌>>◌, give, throw, check, demand, query, modify,
}
use dating_coach.Store.Rows.{Time}
use dating_coach.Store.Users.{
  User, Users, Role, user_role, coach_role, admin_role, CreateUserParams, get_user_by_id,
  get_user_by_email, insert_user, verify_user_email,
}
use dating_coach.Store.Tokens.{
  RefreshToken, Tokens, get_refresh_token, use_refresh_token, revoke_user_refresh_tokens,
  create_refresh_token,
}
use dating_coach.Auth.World.{
  AuthService, AuthEnv, invalid_credentials, email_not_verified, invalid_refresh_token,
  invalid_input, google_disabled, google_refused, internal, AuthRun, Claims, Scope, session_scope,
  GoogleIdentity, set_users, set_tokens, auth_transaction, address,
}

pub record Profile : Type 0 where
  pub id : ℕ
  pub email : String
  pub display_name : String
  pub role : Role
  pub email_verified : Bool
  pub dating_styles : List String
  pub phases_strong : List String
  pub phases_working_on : List String
  pub dating_preferences : String

unfoldable pub profile_of : User → Profile
profile_of u = record {
  id = u.id;
  email = u.email;
  display_name = u.display_name;
  role = u.role;
  email_verified = u.email_verified;
  dating_styles = u.dating_styles;
  phases_strong = u.phases_strong;
  phases_working_on = u.phases_working_on;
  dating_preferences = u.dating_preferences;
}

-- The response of sign-up, sign-in, refresh and verification; an empty text is an absent token.
pub record Session : Type 0 where
  pub token : String
  pub refresh_token : String
  pub expires_at : Time
  pub user : Profile

unfoldable pub claims_for : AuthEnv → User → Scope → Time → Claims
claims_for env user scope ttl = record {
  subject = user.id;
  role = user.role;
  email = user.email;
  scope = scope;
  expires_at = env.now + ttl;
}

abbrev pub family_or_new : AuthEnv → Option ℕ → ℕ
family_or_new env none = env.family_id
family_or_new env (some f) = f

unfoldable pub refresh_row : AuthService → AuthEnv → ℕ → Option ℕ → String → RefreshToken
refresh_row svc env user_id family token = record {
  id = env.token_id;
  user_id = user_id;
  token_hash = svc.hash_token token;
  issued_at = env.db_now;
  expires_at = env.now + svc.refresh_ttl;
  used_at = none;
  family_id = family_or_new env family;
}

abbrev pub store_tokens : Option Tokens → AuthRun (Unit {0})
store_tokens none s = (failed internal, s)
store_tokens (some tokens) s = (done tt, set_tokens s tokens)

unfoldable pub issue_refresh_token : AuthService → AuthEnv → User → Option ℕ → AuthRun String
issue_refresh_token svc env user family = do
  token ← demand env.random_token internal
  λ s. store_tokens (create_refresh_token (refresh_row svc env user.id family token) s.tokens) s
  give token

-- `family` is none for uuid.Nil.
unfoldable pub open_session : AuthService → AuthEnv → User → Option ℕ → AuthRun Session
open_session svc env user family = do
  token ← demand (svc.issue (claims_for env user session_scope svc.session_ttl)) internal
  refresh ← issue_refresh_token svc env user family
  give (record {
    token = token;
    refresh_token = refresh;
    expires_at = env.now + svc.session_ttl;
    user = profile_of user;
  })

abbrev pub spend : AuthEnv → RefreshToken → AuthRun (Unit {0})
spend env row s =
    if (use_refresh_token row.id env.db_now s.tokens).0
    then (done tt, set_tokens s (use_refresh_token row.id env.db_now s.tokens).1)
    else (failed invalid_refresh_token, s)

-- The transaction of Refresh.
unfoldable pub rotate : AuthService → AuthEnv → RefreshToken → AuthRun Session
rotate svc env row = do
  spend env row
  user ← query (λ s. get_user_by_id row.user_id s.users) invalid_refresh_token
  open_session svc env user (some row.family_id)

-- A spent token is taken for a stolen one.
unfoldable pub revoke_reused : RefreshToken → AuthRun Session
revoke_reused row = do
  modify (λ s. set_tokens s (revoke_user_refresh_tokens row.user_id s.tokens))
  throw invalid_refresh_token

unfoldable pub exchange : AuthService → AuthEnv → RefreshToken → AuthRun Session
exchange svc env row =
    if is_some row.used_at then revoke_reused row else auth_transaction env (rotate svc env row)

unfoldable pub refresh : AuthService → AuthEnv → String → AuthRun Session
refresh svc env raw = do
  check (not (text_eq raw "")) invalid_refresh_token
  row ← query (λ s. get_refresh_token (svc.hash_token raw) s.tokens) invalid_refresh_token
  exchange svc env row

-- The password is checked before the address is said to be unverified. An empty hash is
-- NoPasswordHash.
unfoldable pub sign_in : AuthService → AuthEnv → String → String → AuthRun Session
sign_in svc env email password = do
  user ← query (λ s. get_user_by_email (address svc email) s.users) invalid_credentials
  check (not (text_eq user.password_hash "")) invalid_credentials
  check (svc.matches user.password_hash password) invalid_credentials
  check user.email_verified email_not_verified
  open_session svc env user none

abbrev pub confirmed : Option User × Users → AuthRun User
confirmed (none, users) s = (failed internal, s)
confirmed (some user, users) s = (done user, set_users s users)

-- Google has confirmed the address.
unfoldable pub confirm_address : AuthEnv → User → AuthRun User
confirm_address env user s =
    if user.email_verified
    then (done user, s)
    else confirmed (verify_user_email user.id env.db_now s.users) s

abbrev display_name_of : AuthService → GoogleIdentity → String
display_name_of svc identity =
    if text_eq (svc.trim identity.name) ""
    then svc.local_part identity.email
    else svc.trim identity.name

unfoldable pub google_params : AuthService → GoogleIdentity → Role → CreateUserParams
google_params svc identity role = record {
  email = identity.email;
  password_hash = "";
  display_name = display_name_of svc identity;
  role = role;
}

-- A unique violation resolves to the row the other call made.
abbrev pub inserted_or_other : AuthEnv → GoogleIdentity → Option (User × Users) → AuthRun User
inserted_or_other env identity (some (user, users)) s = (done user, set_users s users)
inserted_or_other env identity none s =
    (do
      user ← query (λ v. get_user_by_email identity.email v.users) invalid_credentials
      confirm_address env user)
      s

unfoldable pub create_google_user : AuthService → AuthEnv → GoogleIdentity → Role → AuthRun User
create_google_user svc env identity role s =
    inserted_or_other env identity
      (insert_user env.user_id env.db_now true (google_params svc identity role) s.users) s

abbrev pub found_or_created :
    AuthService → AuthEnv → GoogleIdentity → Role → Option User → AuthRun User
found_or_created svc env identity role (some user) = confirm_address env user
found_or_created svc env identity role none = create_google_user svc env identity role

-- The role of a request: none for an empty text.
abbrev pub role_or_user : Option Role → Role
role_or_user none = user_role
role_or_user (some r) = r

abbrev pub may_choose : Role → Bool
may_choose user_role = true
may_choose coach_role = true
may_choose admin_role = false

unfoldable pub sign_in_with_google : AuthService → AuthEnv → String → Option Role → AuthRun Session
sign_in_with_google svc env id_token role = do
  verify ← demand svc.verify google_disabled
  check (may_choose (role_or_user role)) invalid_input
  identity ← demand (verify id_token) google_refused
  user ← λ s.
      found_or_created svc env identity (role_or_user role)
        (get_user_by_email identity.email s.users) s
  open_session svc env user none
