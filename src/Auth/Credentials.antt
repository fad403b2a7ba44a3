-- ===== src/Auth/Credentials.antt =====
-- Who may sign in with a password (SignIn of backend/internal/auth/service.go).
use dating_coach.Base.{
  Bool, true, false, ◌≡◌, ◌↔◌, refl, arith, none, some, String, inl, inr, text_eq, any, Bool-cases,
  Option-cases,
}
use dating_coach.Base.Outcomes.{Outcome, done, failed}
use dating_coach.Store.Users.{User, get_user_by_email}
use dating_coach.Store.Tokens.{hashed_as, create_refresh_token}
use dating_coach.Auth.World.{AuthService, AuthEnv, AuthState, address, session_scope}
use dating_coach.Auth.Sessions.{claims_for, open_session, issue_refresh_token, refresh_row, sign_in}

abbrev pub succeeds : {S E A : Type 0} → Outcome E A × S → Bool
succeeds (done a, s) = true
succeeds (failed e, s) = false

-- What a session needs apart from the account: a signature, and a token that no row has.
pub record CanOpen (svc : AuthService) (env : AuthEnv) (s : AuthState) (user : User) : Type 0 where
  pub token : String
  pub raw : String
  pub signed : svc.issue (claims_for env user session_scope svc.session_ttl) ≡ some token
  pub drawn : env.random_token ≡ some raw
  pub fresh : any (hashed_as (svc.hash_token raw)) s.tokens ≡ false

pub record MaySignIn (svc : AuthService) (env : AuthEnv) (email password : String) (s : AuthState)
    : Type 0 where
  pub user : User
  pub known : get_user_by_email (address svc email) s.users ≡ some user
  pub has_password : text_eq user.password_hash "" ≡ false
  pub matches : svc.matches user.password_hash password ≡ true
  pub verified : user.email_verified ≡ true
  pub can_open : CanOpen svc env s user

opens-CanOpen :
    (svc : AuthService) (env : AuthEnv) (s : AuthState) (user : User)
    → succeeds (open_session svc env user none s) ≡ true
    → CanOpen svc env s user
unfolding open_session issue_refresh_token create_refresh_token refresh_row claims_for
opens-CanOpen svc env s user e =
    elim (Option-cases (svc.issue (claims_for env user session_scope svc.session_ttl))) [
      | inl n ↦ ground (arith, n, e)
      | inr (token, n) ↦ elim (Option-cases env.random_token) [
        | inl m ↦ ground (arith, n, m, e)
        | inr (raw, m) ↦ elim (Bool-cases (any (hashed_as (svc.hash_token raw)) s.tokens)) [
          | inl q ↦ ground (arith, n, m, q, e)
          | inr q ↦ record { token = token; raw = raw; signed = n; drawn = m; fresh = q }
        ]
      ]
    ]

CanOpen-opens :
    (svc : AuthService) (env : AuthEnv) (s : AuthState) (user : User)
    → CanOpen svc env s user
    → succeeds (open_session svc env user none s) ≡ true
unfolding open_session issue_refresh_token create_refresh_token refresh_row
CanOpen-opens svc env s user c = simp (c.signed, c.drawn, c.fresh) refl

signs_in-MaySignIn :
    (svc : AuthService) (env : AuthEnv) (email password : String) (s : AuthState)
    → succeeds (sign_in svc env email password s) ≡ true
    → MaySignIn svc env email password s
unfolding sign_in
signs_in-MaySignIn svc env email password s e =
    elim (Option-cases (get_user_by_email (address svc email) s.users)) [
      | inl n ↦ ground (arith, n, e)
      | inr (u, n) ↦ elim (Bool-cases (text_eq u.password_hash "")) [
        | inl p ↦ ground (arith, n, p, e)
        | inr p ↦ elim (Bool-cases (svc.matches u.password_hash password)) [
          | inr m ↦ ground (arith, n, p, m, e)
          | inl m ↦ elim (Bool-cases u.email_verified) [
            | inr v ↦ ground (arith, n, p, m, v, e)
            | inl v ↦ record {
              user = u;
              known = n;
              has_password = p;
              matches = m;
              verified = v;
              can_open = opens-CanOpen svc env s u (ground (arith, n, p, m, v, e));
            }
          ]
        ]
      ]
    ]

MaySignIn-signs_in :
    (svc : AuthService) (env : AuthEnv) (email password : String) (s : AuthState)
    → MaySignIn svc env email password s
    → succeeds (sign_in svc env email password s) ≡ true
unfolding sign_in
MaySignIn-signs_in svc env email password s m =
    simp (m.known, m.has_password, m.matches, m.verified)
      (CanOpen-opens svc env s m.user m.can_open)

-- A sign-in succeeds exactly where the normalised address belongs to a live account that has a
-- password, the password matches its hash, the address is verified, and a session can be opened: the
-- claims are signed, a token is drawn, and no stored token has its hash.
pub sign_in_iff :
    (svc : AuthService) (env : AuthEnv) (email password : String) (s : AuthState)
    → (succeeds (sign_in svc env email password s) ≡ true) ↔ MaySignIn svc env email password s
sign_in_iff svc env email password s =
    (signs_in-MaySignIn svc env email password s, MaySignIn-signs_in svc env email password s)
