-- ===== src/Auth/Spared.antt =====
-- What each request leaves of an account whose row is marked deleted (backend/internal/auth/service.go
-- and refresh.go).
use dating_coach.Base.{
  ℕ, true, ◌≡◌, ◌≢◌, refl, arith, Option, none, some, String, text_eq, Bool-cases, Option-cases,
  inl, inr,
}
use dating_coach.Base.Outcomes.{throw, Outcome, done, failed, Safe, bind, bind-Safe}
use dating_coach.Store.Users.{
  User, Users, Role, get_user_by_id, get_user_by_email, verify_user_email,
}
use dating_coach.Store.Tokens.{use_refresh_token, get_refresh_token, RefreshToken}
use dating_coach.Auth.World.{
  invalid_code, set_tokens, AuthService, AuthEnv, AuthState, AuthError, GoogleIdentity, settle_auth,
  address,
}
use dating_coach.Auth.Sessions.{
  may_choose, google_params, Session, profile_of, open_session, confirmed, confirm_address, sign_in,
  rotate, exchange, revoke_reused, refresh, sign_in_with_google, create_google_user,
  inserted_or_other, found_or_created, role_or_user,
}
use dating_coach.Auth.Verification.{
  record_failed_attempt, accept_code, refuse_code, check_code, confirm_email, session_for,
  verify_email,
}
use dating_coach.Auth.Deleted.{
  IsGone, IsOther, IsForOther, by_email-IsOther, by_id-IsOther, open_session-Safe, verified-Safe,
  AddsOther, insert_user-AddsOther,
}

module _ (i : ℕ) (svc : AuthService) (env : AuthEnv) where
  pub sign_in-Safe :
      (email password : String) (s : AuthState)
      → IsGone i s
      → Safe (IsGone i) (IsForOther i) (sign_in svc env email password s)
  unfolding sign_in
  sign_in-Safe email password s h =
      elim (Option-cases (get_user_by_email (address svc email) s.users)) [
        | inl n ↦ rw n h
        | inr (u, n) ↦
            let o = open_session-Safe i svc env u none s (by_email-IsOther i _ s u h n) h in
            rw n (ground (arith, o, h))
      ]

  settle-Safe :
      (s : AuthState) (r : Outcome AuthError Session × AuthState)
      → IsGone i s
      → Safe (IsGone i) (IsForOther i) r
      → Safe (IsGone i) (IsForOther i) (settle_auth env s r)
  settle-Safe s (done x, s') h k = ground (arith, h, k)
  settle-Safe s (failed e, s') h k = h

  rotate-Safe :
      (row : RefreshToken) (s : AuthState)
      → IsGone i s
      → Safe (IsGone i) (IsForOther i) (rotate svc env row s)
  unfolding rotate
  rotate-Safe row s h = elim (Bool-cases (use_refresh_token row.id env.db_now s.tokens).0) [
    | inr q ↦ rw q h
    | inl q ↦ elim (Option-cases (get_user_by_id row.user_id s.users)) [
      | inl n ↦ rw q (rw n h)
      | inr (u, n) ↦ rw q (
          rw n (
            open_session-Safe i svc env u (some row.family_id)
              (set_tokens s (use_refresh_token row.id env.db_now s.tokens).1)
              (by_id-IsOther i row.user_id s u h n) h))
    ]
  ]

  pub refresh-Safe :
      (raw : String) (s : AuthState)
      → IsGone i s
      → Safe (IsGone i) (IsForOther i) (refresh svc env raw s)
  unfolding refresh exchange revoke_reused
  refresh-Safe raw s h = elim (Bool-cases (text_eq raw "")) [
    | inl q ↦ rw q h
    | inr q ↦ elim (Option-cases (get_refresh_token (svc.hash_token raw) s.tokens)) [
      | inl n ↦ rw q (rw n h)
      | inr (row, n) ↦
          let k = settle-Safe s (rotate svc env row s) h (rotate-Safe row s h) in
          rw q (rw n (ground (arith, h, k)))
    ]
  ]

  confirm_address-Safe :
      (u : User) (s : AuthState)
      → IsOther i u
      → IsGone i s
      → Safe (IsGone i) (IsOther i) (confirm_address env u s)
  unfolding confirm_address
  confirm_address-Safe u s o h = elim (Bool-cases u.email_verified) [
    | inl q ↦ rw q (h, o)
    | inr q ↦ rw q (verified-Safe i u.id env.db_now s h)
  ]

  inserted-Safe :
      (identity : GoogleIdentity) (r : Option (User × Users)) (s : AuthState)
      → IsGone i s
      → AddsOther i r
      → Safe (IsGone i) (IsOther i) (inserted_or_other env identity r s)
  inserted-Safe identity (some (u, users)) s h k = (k.1, k.0)
  inserted-Safe identity none s h k =
      elim (Option-cases (get_user_by_email identity.email s.users)) [
        | inl n ↦ rw n h
        | inr (u, n) ↦ rw n (confirm_address-Safe u s (by_email-IsOther i identity.email s u h n) h)
      ]

  found-Safe :
      (identity : GoogleIdentity) (role : Role) (o : Option User) (s : AuthState)
      → env.user_id ≢ i
      → IsGone i s
      → ((u : User) → o ≡ some u → IsOther i u)
      → Safe (IsGone i) (IsOther i) (found_or_created svc env identity role o s)
  unfolding create_google_user
  found-Safe identity role (some u) s n h k = confirm_address-Safe u s (k u refl) h
  found-Safe identity role none s n h k = inserted-Safe identity _ s h (
      insert_user-AddsOther i env.user_id env.db_now true (google_params svc identity role) s.users
        n h)

  identified-Safe :
      (identity : GoogleIdentity) (role : Role) (s : AuthState)
      → env.user_id ≢ i
      → IsGone i s
      → Safe (IsGone i) (IsForOther i) (
          bind
            (found_or_created svc env identity role (get_user_by_email identity.email s.users) s)
            (λ u. open_session svc env u none))
  identified-Safe identity role s n h =
      bind-Safe (IsGone i) (IsOther i) (IsForOther i)
        (found_or_created svc env identity role (get_user_by_email identity.email s.users) s)
        (λ u. open_session svc env u none)
        (found-Safe identity role (get_user_by_email identity.email s.users) s n h
          (λ u e. by_email-IsOther i identity.email s u h e))
        (λ u s1 o h1. open_session-Safe i svc env u none s1 o h1)

  pub sign_in_with_google-Safe :
      (token : String) (role : Option Role) (s : AuthState)
      → env.user_id ≢ i
      → IsGone i s
      → Safe (IsGone i) (IsForOther i) (sign_in_with_google svc env token role s)
  unfolding sign_in_with_google
  sign_in_with_google-Safe token role s n h = elim (Option-cases svc.verify) [
    | inl q ↦ rw q h
    | inr (verify, q) ↦ elim (Bool-cases (may_choose (role_or_user role))) [
      | inr m ↦ rw q (rw m h)
      | inl m ↦ elim (Option-cases (verify token)) [
        | inl g ↦ rw q (rw m (rw g h))
        | inr (identity, g) ↦ simp (q, m, g) (identified-Safe identity (role_or_user role) s n h)
      ]
    ]
  ]

  refused :
      (r : Outcome AuthError (Unit {0}) × AuthState)
      → IsGone i r.1
      → Safe (IsGone i) (IsOther i) (bind r (λ u. throw invalid_code))
  refused (done u, s) h = h
  refused (failed e, s) h = h

  attempt-Safe : (j : ℕ) (s : AuthState) → IsGone i s → IsGone i (record_failed_attempt env j s).1
  unfolding record_failed_attempt
  attempt-Safe j s h = ground (arith, h)

  accept_code-Safe :
      (u : User) (s : AuthState) → IsGone i s → Safe (IsGone i) (IsOther i) (accept_code env u s)
  unfolding accept_code
  accept_code-Safe u s h =
      bind-Safe (IsGone i) (IsOther i) (IsOther i)
        (confirmed (verify_user_email u.id env.db_now s.users) s) _
        (verified-Safe i u.id env.db_now s h) (λ v s1 o h1. ground (arith, o, h1))

  refuse_code-Safe :
      (u : User) (s : AuthState) → IsGone i s → Safe (IsGone i) (IsOther i) (refuse_code env u s)
  unfolding refuse_code
  refuse_code-Safe u s h = refused (record_failed_attempt env u.id s) (attempt-Safe u.id s h)

  confirm_email-Safe :
      (u : User) (code : String) (s : AuthState)
      → IsOther i u
      → IsGone i s
      → Safe (IsGone i) (IsOther i) (confirm_email svc env u code s)
  unfolding confirm_email check_code
  confirm_email-Safe u code s o h =
      ground (arith, accept_code-Safe u s h, refuse_code-Safe u s h, o, h)

  session_for-Safe :
      (u : User) (bearer : String) (s : AuthState)
      → IsOther i u
      → IsGone i s
      → Safe (IsGone i) (IsForOther i) (session_for svc env u bearer s)
  unfolding session_for profile_of
  session_for-Safe u bearer s o h = ground (arith, open_session-Safe i svc env u none s o h, o, h)

  pub verify_email-Safe :
      (email code bearer : String) (s : AuthState)
      → IsGone i s
      → Safe (IsGone i) (IsForOther i) (verify_email svc env email code bearer s)
  unfolding verify_email
  verify_email-Safe email code bearer s h =
      elim (Option-cases (get_user_by_email (address svc email) s.users)) [
        | inl n ↦ rw n h
        | inr (u, n) ↦ rw n (
            bind-Safe (IsGone i) (IsOther i) (IsForOther i) (confirm_email svc env u code s)
              (λ v. session_for svc env v bearer)
              (confirm_email-Safe u code s (by_email-IsOther i (address svc email) s u h n) h)
              (λ v s1 o h1. session_for-Safe v bearer s1 o h1))
      ]
