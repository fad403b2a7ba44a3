-- ===== src/Auth/Deleted.antt =====
-- An account whose deletion is recorded (DeleteAccount of backend/internal/auth/service.go): its row
-- is marked, and every lookup skips marked rows.
use dating_coach.Base.{
  ℕ, Bool, true, false, ◌≡◌, ◌≢◌, arith, Option, none, some, String, any, All, find_first,
  find_first_holds, All-find_first, update_where, All-update_where, Bool-cases, Option-cases, inl,
  inr,
}
use dating_coach.Base.Outcomes.{Safe}
use dating_coach.Store.Rows.{Time}
use dating_coach.Store.Users.{
  taken, User, Users, is_live, live_id, live_email, get_user_by_id, get_user_by_email, insert_user,
  verify_user_email, verified_user, new_user, CreateUserParams,
}
use dating_coach.Store.Tokens.{hashed_as, create_refresh_token}
use dating_coach.Auth.World.{set_users, AuthService, AuthEnv, AuthState, session_scope}
use dating_coach.Auth.Sessions.{
  refresh_row, Session, confirmed, profile_of, open_session, issue_refresh_token, claims_for,
}

-- No row under this key is readable.
abbrev pub IsGone : ℕ → AuthState → Type 0
IsGone i s = All (λ u. live_id i u ≡ false) s.users

abbrev pub IsOther : ℕ → User → Type 0
IsOther i u = u.id ≢ i

abbrev pub IsForOther : ℕ → Session → Type 0
IsForOther i x = x.user.id ≢ i

live-IsOther : (i : ℕ) (u : User) → live_id i u ≡ false → is_live u.deleted_at ≡ true → IsOther i u
live-IsOther i u h l = ground arith

pub by_email-IsOther :
    (i : ℕ) (email : String) (s : AuthState) (u : User)
    → IsGone i s
    → get_user_by_email email s.users ≡ some u
    → IsOther i u
unfolding get_user_by_email
by_email-IsOther i email s u h e =
    let l = find_first_holds (live_email email) u s.users e in
    live-IsOther i u (All-find_first _ (live_email email) u s.users h e) (ground (arith, l))

pub by_id-IsOther :
    (i j : ℕ) (s : AuthState) (u : User)
    → IsGone i s
    → get_user_by_id j s.users ≡ some u
    → IsOther i u
unfolding get_user_by_id
by_id-IsOther i j s u h e =
    let l = find_first_holds (live_id j) u s.users e in
    live-IsOther i u (All-find_first _ (live_id j) u s.users h e) (ground (arith, l))

pub open_session-Safe :
    (i : ℕ) (svc : AuthService) (env : AuthEnv) (u : User) (family : Option ℕ) (s : AuthState)
    → IsOther i u
    → IsGone i s
    → Safe (IsGone i) (IsForOther i) (open_session svc env u family s)
unfolding open_session issue_refresh_token create_refresh_token refresh_row claims_for profile_of
open_session-Safe i svc env u family s o h =
    elim (Option-cases (svc.issue (claims_for env u session_scope svc.session_ttl))) [
      | inl n ↦ rw n h
      | inr (token, n) ↦ elim (Option-cases env.random_token) [
        | inl m ↦ rw n (rw m h)
        | inr (raw, m) ↦ elim (Bool-cases (any (hashed_as (svc.hash_token raw)) s.tokens)) [
          | inl q ↦ rw n (rw m (rw q h))
          | inr q ↦ rw n (rw m (rw q (h, o)))
        ]
      ]
    ]

-- A confirmed address revives no row.
pub verified-Safe :
    (i j : ℕ) (now : Time) (s : AuthState)
    → IsGone i s
    → Safe (IsGone i) (IsOther i) (confirmed (verify_user_email j now s.users) s)
unfolding verify_user_email verified_user get_user_by_id
verified-Safe i j now s h =
    let users = update_where (live_id j) (verified_user now) s.users in
    let h' =
      All-update_where (λ u. live_id i u ≡ false) (live_id j) (verified_user now) s.users
        (λ u k p. k) h in
    elim (Option-cases (find_first (live_id j) users)) [
      | inl n ↦ rw n h
      | inr (u, n) ↦ rw n (h', by_id-IsOther i j (set_users s users) u h' n)
    ]

-- What an INSERT that succeeds adds is under another key.
abbrev pub AddsOther : ℕ → Option (User × Users) → Type 0
AddsOther i none = Unit {0}
AddsOther i (some (u, users)) = IsOther i u × All (λ u. live_id i u ≡ false) users

pub insert_user-AddsOther :
    (i id : ℕ) (now : Time) (verified : Bool) (p : CreateUserParams) (users : Users)
    → id ≢ i
    → All (λ u. live_id i u ≡ false) users
    → AddsOther i (insert_user id now verified p users)
unfolding insert_user new_user
insert_user-AddsOther i id now verified p users n h = elim (Bool-cases (taken id p.email users)) [
  | inl q ↦ rw q tt
  | inr q ↦ rw q (n, (ground (arith, n), h))
]
