-- ===== src/Auth/Farewell.antt =====
-- Accounts after DELETE /me (DeleteAccount of backend/internal/auth/service.go), whatever requests
-- follow.
use dating_coach.Store.Rows.{Time}
use dating_coach.Store.Deletions.{request_user_deletion, Deletions}
use dating_coach.Base.{
  All-update_where, any, ℕ, Bool, true, false, not, ◌≡◌, ◌≢◌, refl, arith, Option, none, some, [],
  ◌∷◌, String, ◌==◌, All, All-select, any→All, All-map, Option-cases, inl, inr, update_where,
}
use dating_coach.Base.Outcomes.{Safe, bind-Safe}
use dating_coach.Store.Users.{
  User, Users, live_id, get_user_by_email, insert_user, delete_user, user_row_exists, marked_user,
}
use dating_coach.Auth.World.{verify_scope, AuthService, AuthEnv, AuthState, address}
use dating_coach.Auth.Sessions.{profile_of, claims_for}
use dating_coach.Auth.Verification.{resend_verification, send_code}
use dating_coach.Auth.Accounts.{
  recorded, verify_session, SignUpInput, sign_up, register, welcome, sign_up_params, stored,
  store_first_code, delete_account, deny, queue_deletion,
}
use dating_coach.Auth.Deleted.{IsGone, IsOther, IsForOther, AddsOther, insert_user-AddsOther}

marked_is_gone : (i : ℕ) (now : Time) (u : User) → live_id i (marked_user now u) ≡ false
unfolding marked_user
marked_is_gone i now u = elim (Option-cases u.deleted_at) [
  | inl n ↦ rw n (ground arith)
  | inr (t, n) ↦ rw n (ground arith)
]

marked_elsewhere :
    (i j : ℕ) (now : Time) (users : Users)
    → All (λ u. live_id i u ≡ false) users
    → All
        (λ u. live_id i u ≡ false)
        (update_where (λ (u : User). u.id == j) (marked_user now) users)
marked_elsewhere i j now users h =
    All-update_where (λ u. live_id i u ≡ false) (λ (u : User). u.id == j) (marked_user now) users
      (λ u k p. marked_is_gone i now u) h

marked_own :
    (i : ℕ) (now : Time) (users : Users)
    → All
        (λ u. live_id i u ≡ false)
        (update_where (λ (u : User). u.id == i) (marked_user now) users)
marked_own i now [] = tt
marked_own i now (u ∷ users) =
    let k = marked_is_gone i now u in ((ground (arith, k)), marked_own i now users)

absent :
    (i : ℕ) (users : Users)
    → any (λ (u : User). u.id == i) users ≡ false
    → All (λ u. live_id i u ≡ false) users
absent i users n =
    All-map (λ u e. ground (arith, e)) users (any→All (λ (u : User). u.id == i) users n)

module _ (i : ℕ) (svc : AuthService) (env : AuthEnv) where
  stored-Safe :
      (r : Option (User × Users)) (s : AuthState)
      → IsGone i s
      → AddsOther i r
      → Safe (IsGone i) (IsOther i) (stored r s)
  stored-Safe (some (u, users)) s h k = (k.1, k.0)
  stored-Safe none s h k = h

  first_code-Safe :
      (u : User) (code : String) (s : AuthState)
      → IsGone i s
      → Safe (IsGone i) (λ x. Unit {0}) (store_first_code env u code s)
  unfolding store_first_code delete_user
  first_code-Safe u code s h =
      let k = All-select (λ u. live_id i u ≡ false) (λ v. not (v.id == u.id)) s.users h in
      ground (arith, h, k)

  verify_session-Safe :
      (u : User) (s : AuthState)
      → IsOther i u
      → IsGone i s
      → Safe (IsGone i) (IsForOther i) (verify_session svc env u s)
  unfolding verify_session profile_of
  verify_session-Safe u s o h =
      elim (Option-cases (svc.issue (claims_for env u verify_scope svc.verify_ttl))) [
        | inl n ↦ rw n h
        | inr (token, n) ↦ rw n (h, o)
      ]

  welcome-Safe :
      (u : User) (code : String) (s : AuthState)
      → IsOther i u
      → IsGone i s
      → Safe (IsGone i) (IsForOther i) (welcome svc env u code s)
  unfolding welcome
  welcome-Safe u code s o h =
      bind-Safe (IsGone i) (λ x. Unit {0}) (IsForOther i) (store_first_code env u code s)
        (λ x. verify_session svc env u) (first_code-Safe u code s h)
        (λ x s1 t h1. verify_session-Safe u s1 o h1)

  register-Safe :
      (input : SignUpInput) (hash code : String) (s : AuthState)
      → env.user_id ≢ i
      → IsGone i s
      → Safe (IsGone i) (IsForOther i) (register svc env input hash code s)
  unfolding register
  register-Safe input hash code s n h =
      bind-Safe (IsGone i) (IsOther i) (IsForOther i)
        (stored (insert_user env.user_id env.db_now false (sign_up_params svc input hash) s.users)
          s)
        (λ u. welcome svc env u code)
        (stored-Safe _ s h (
          insert_user-AddsOther i env.user_id env.db_now false (sign_up_params svc input hash)
            s.users n h))
        (λ u s1 o h1. welcome-Safe u code s1 o h1)

  pub sign_up-Safe :
      (input : SignUpInput) (s : AuthState)
      → env.user_id ≢ i
      → IsGone i s
      → Safe (IsGone i) (IsForOther i) (sign_up svc env input s)
  unfolding sign_up
  sign_up-Safe input s n h = elim (Option-cases (svc.hash_password input.password)) [
    | inl p ↦ ground (arith, p, h)
    | inr (hash, p) ↦ elim (Option-cases env.random_code) [
      | inl q ↦ ground (arith, p, q, h)
      | inr (code, q) ↦ let k = register-Safe input hash code s n h in ground (arith, p, q, h, k)
    ]
  ]

  pub resend-Safe :
      (email : String) (s : AuthState)
      → IsGone i s
      → IsGone i (resend_verification svc env email s).1
  unfolding resend_verification send_code
  resend-Safe email s h = elim (Option-cases (get_user_by_email (address svc email) s.users)) [
    | inl n ↦ rw n h
    | inr (u, n) ↦ elim (Option-cases env.random_code) [
      | inl m ↦ rw n (ground (arith, m, h))
      | inr (code, m) ↦ rw n (ground (arith, m, h))
    ]
  ]

  recorded-Safe :
      (j : ℕ) (r : Bool × Users × Deletions) (s : AuthState)
      → (r.0 ≡ true → All (λ u. live_id i u ≡ false) r.1)
      → (r.0 ≡ false → IsGone i s)
      → IsGone i (recorded svc env j r s).1
  unfolding deny queue_deletion
  recorded-Safe j (true, users, rows) s k h = let k' = k refl in ground (arith, k')
  recorded-Safe j (false, users, rows) s k h = h refl

  pub deletion-Safe : (j : ℕ) (s : AuthState) → IsGone i s → IsGone i (delete_account svc env j s).1
  unfolding delete_account request_user_deletion
  deletion-Safe j s h =
      let k = marked_elsewhere i j env.db_now s.users h in
      recorded-Safe j (request_user_deletion j env.db_now s.users s.deletions) s
        (λ e. ground (arith, k, e)) (λ e. h)

  -- An account is gone once its deletion is accepted.
  pub delete_account-IsGone : (s : AuthState) → IsGone i (delete_account svc env i s).1
  unfolding delete_account request_user_deletion user_row_exists
  delete_account-IsGone s =
      let k = marked_own i env.db_now s.users in
      let a = absent i s.users in
      recorded-Safe i (request_user_deletion i env.db_now s.users s.deletions) s
        (λ e. ground (arith, k, e)) (λ e. a (ground (arith, e)))
