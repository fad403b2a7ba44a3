-- ===== src/Auth/Rotation.antt =====
-- What an exchange of a refresh token does to the table (Refresh of
-- backend/internal/auth/refresh.go).
use dating_coach.Base.{
  any→All, find_first-none, ℕ, true, false, ◌≡◌, ◌≢◌, refl, sym, subst, arith, Option, some, [],
  ◌∷◌, String, inl, inr, text_eq, text_eq_refl, eq_iff, is_some, any, All, find_first, update_where,
  find_first_holds, All-find_first, Option-cases, Bool-cases,
}
use dating_coach.Base.Outcomes.{Outcome, done, failed, Ensures, Ensures-done, Ensures-map}
use dating_coach.Store.Rows.{Time}
use dating_coach.Store.Users.{live_id, User, get_user_by_id}
use dating_coach.Store.Tokens.{
  RefreshToken, Tokens, hashed_as, get_refresh_token, usable, spent_token, use_refresh_token,
  create_refresh_token,
}
use dating_coach.Auth.World.{
  AuthService, AuthEnv, AuthState, AuthError, set_tokens, settle_auth, session_scope,
}
use dating_coach.Auth.Sessions.{
  Session, refresh, rotate, exchange, revoke_reused, open_session, refresh_row, issue_refresh_token,
  claims_for, profile_of,
}

-- The primary key.
abbrev pub IsKeyed : Tokens → Type 0
IsKeyed [] = Unit
IsKeyed (t ∷ ts) = All (λ (x : RefreshToken). x.id ≢ t.id) ts × IsKeyed ts

not_usable :
    (i : ℕ) (now : Time) (ts : Tokens)
    → All (λ (x : RefreshToken). x.id ≢ i) ts
    → any (usable i now) ts ≡ false
not_usable i now [] h = refl
not_usable i now (t ∷ ts) h = ground (arith, not_usable i now ts h.1)

-- Spending the key of a row is spending what the hash finds.
abbrev pub SpentIn : String → Time → Tokens → RefreshToken → Type 0
SpentIn hash now ts row =
    (usable row.id now row ≡ true)
    × (find_first (hashed_as hash) (update_where (usable row.id now) (spent_token now) ts)
        ≡ some (spent_token now row))

spent_first :
    (hash : String) (now : Time) (t : RefreshToken) (ts : Tokens)
    → All (λ (x : RefreshToken). x.id ≢ t.id) ts
    → hashed_as hash t ≡ true
    → any (usable t.id now) (t ∷ ts) ≡ true
    → (usable t.id now t ≡ true)
      × (find_first (hashed_as hash) (update_where (usable t.id now) (spent_token now) (t ∷ ts))
          ≡ some (spent_token now t))
unfolding spent_token
spent_first hash now t ts k p u =
    let n = not_usable t.id now ts k in
    let q : usable t.id now t ≡ true = ground (arith, n, u) in (q, rw q (rw p refl))

-- The row of a hash that is spent is the row found by the hash.
pub spent_is_found :
    (hash : String) (now : Time) (row : RefreshToken) (ts : Tokens)
    → IsKeyed ts
    → find_first (hashed_as hash) ts ≡ some row
    → any (usable row.id now) ts ≡ true
    → SpentIn hash now ts row
spent_is_found hash now row [] k e u = cc
spent_is_found hash now row (t ∷ ts) k e u = elim (Bool-cases (hashed_as hash t)) [
  | inl p ↦
      let q : row ≡ t = ground (arith, p, e) in
      subst (SpentIn hash now (t ∷ ts)) (sym q)
        (spent_first hash now t ts k.0 p (subst (λ r. any (usable r.id now) (t ∷ ts) ≡ true) q u))
  | inr p ↦
      let e' : find_first (hashed_as hash) ts ≡ some row = ground (arith, p, e) in
      let n = All-find_first (λ (x : RefreshToken). x.id ≢ t.id) (hashed_as hash) row ts k.0 e' in
      let f : usable row.id now t ≡ false = ground (arith, n) in
      let (l, r) = spent_is_found hash now row ts k.1 e' (ground (arith, f, u)) in
      (l, rw f (rw p r))
]

-- What an exchange that succeeds shows of the row it was made for, and leaves in the table.
pub record Rotated (svc : AuthService) (env : AuthEnv) (raw : String) (s : AuthState)
    (session : Session) (s' : AuthState) : Type 0 where
  pub row : RefreshToken
  pub user : User
  pub presented : get_refresh_token (svc.hash_token raw) s.tokens ≡ some row
  pub was_usable : usable row.id env.db_now row ≡ true
  pub owner : get_user_by_id row.user_id s.users ≡ some user
  pub profile : session.user ≡ profile_of user
  pub issued : svc.issue (claims_for env user session_scope svc.session_ttl) ≡ some session.token
  pub spent : get_refresh_token (svc.hash_token raw) s'.tokens ≡ some (spent_token env.db_now row)
  pub renewed :
      get_refresh_token (svc.hash_token session.refresh_token) s'.tokens
      ≡ some (refresh_row svc env user.id (some row.family_id) session.refresh_token)
  pub same_users : s'.users ≡ s.users

-- A session that is opened adds one row, under a hash that no row has.
pub record Opened (svc : AuthService) (env : AuthEnv) (user : User) (family : Option ℕ)
    (s : AuthState) (session : Session) (s' : AuthState) : Type 0 where
  pub profile : session.user ≡ profile_of user
  pub issued : svc.issue (claims_for env user session_scope svc.session_ttl) ≡ some session.token
  pub fresh : any (hashed_as (svc.hash_token session.refresh_token)) s.tokens ≡ false
  pub after :
      s' ≡ set_tokens s (refresh_row svc env user.id family session.refresh_token ∷ s.tokens)

pub open_session-Opened :
    (svc : AuthService) (env : AuthEnv) (user : User) (family : Option ℕ) (s : AuthState)
    → Ensures (Opened svc env user family s) (open_session svc env user family s)
unfolding open_session issue_refresh_token create_refresh_token refresh_row claims_for
open_session-Opened svc env user family s =
    elim (Option-cases (svc.issue (claims_for env user session_scope svc.session_ttl))) [
      | inl n ↦ rw n tt
      | inr (token, n) ↦ elim (Option-cases env.random_token) [
        | inl m ↦ rw n (rw m tt)
        | inr (raw, m) ↦ elim (Bool-cases (any (hashed_as (svc.hash_token raw)) s.tokens)) [
          | inl q ↦ rw n (rw m (rw q tt))
          | inr q ↦
              rw n (rw m (rw q (record { profile = refl; issued = n; fresh = q; after = refl })))
        ]
      ]
    ]

-- A hash that no row has is not the one a row is found by.
fresh_differs :
    (hash other : String) (row : RefreshToken) (ts : Tokens)
    → any (hashed_as other) ts ≡ false
    → find_first (hashed_as hash) ts ≡ some row
    → text_eq other hash ≡ false
fresh_differs hash other row ts n e = elim (Bool-cases (text_eq other hash)) [
  | inl q ↦
      let m = find_first-none (hashed_as other) ts (any→All (hashed_as other) ts n) in
      let e' =
        subst (λ h. find_first (hashed_as h) ts ≡ some row) (sym ((eq_iff other hash).0 q)) e in
      ground (arith, m, e')
  | inr q ↦ q
]

Opened-Rotated :
    (svc : AuthService) (env : AuthEnv) (raw : String) (s : AuthState) (row : RefreshToken)
    (user : User)
    → IsKeyed s.tokens
    → get_refresh_token (svc.hash_token raw) s.tokens ≡ some row
    → any (usable row.id env.db_now) s.tokens ≡ true
    → get_user_by_id row.user_id s.users ≡ some user
    → (session : Session) (s' : AuthState)
    → Opened svc env user
        (some row.family_id)
        (set_tokens s (use_refresh_token row.id env.db_now s.tokens).1)
        session
        s'
    → Rotated svc env raw s session s'
unfolding get_refresh_token use_refresh_token refresh_row
Opened-Rotated svc env raw s row user k e u g session s' o =
    let (usable_now, found) = spent_is_found (svc.hash_token raw) env.db_now row s.tokens k e u in
    record {
      row = row;
      user = user;
      presented = e;
      was_usable = usable_now;
      owner = g;
      profile = o.profile;
      issued = o.issued;
      spent = rw o.after (
          rw
            (fresh_differs (svc.hash_token raw) (svc.hash_token session.refresh_token) _ _ o.fresh
              found)
            found);
      renewed = rw o.after (rw (text_eq_refl (svc.hash_token session.refresh_token)) refl);
      same_users = rw o.after refl;
    }

rotate-Rotated :
    (svc : AuthService) (env : AuthEnv) (raw : String) (s : AuthState) (row : RefreshToken)
    → IsKeyed s.tokens
    → get_refresh_token (svc.hash_token raw) s.tokens ≡ some row
    → Ensures (Rotated svc env raw s) (rotate svc env row s)
unfolding rotate use_refresh_token
rotate-Rotated svc env raw s row k e = elim (Bool-cases (any (usable row.id env.db_now) s.tokens)) [
  | inr q ↦ rw q tt
  | inl q ↦ elim (Option-cases (get_user_by_id row.user_id s.users)) [
    | inl n ↦ rw q (rw n tt)
    | inr (user, n) ↦ rw q (
        rw n (
          Ensures-map _ _ _ (Opened-Rotated svc env raw s row user k e q n) (
            open_session-Opened svc env user (some row.family_id)
              (set_tokens s (use_refresh_token row.id env.db_now s.tokens).1))))
  ]
]

settled-Ensures :
    {A : Type 0} (P : A → AuthState → Type 0) (env : AuthEnv) (s : AuthState)
    (r : Outcome AuthError A × AuthState)
    → Ensures P r
    → Ensures P (settle_auth env s r)
settled-Ensures P env s (done a, s') h = ground (arith, h)
settled-Ensures P env s (failed e, s') h = tt

pub found-owner :
    (i : ℕ) (user : User) (s : AuthState) → get_user_by_id i s.users ≡ some user → user.id ≡ i
unfolding get_user_by_id
found-owner i user s e = let h = find_first_holds (live_id i) user s.users e in ground (arith, h)

refresh-Ensures :
    (svc : AuthService) (env : AuthEnv) (raw : String) (s : AuthState)
    → IsKeyed s.tokens
    → Ensures (Rotated svc env raw s) (refresh svc env raw s)
unfolding refresh exchange revoke_reused
refresh-Ensures svc env raw s k = elim (Bool-cases (text_eq raw "")) [
  | inl q ↦ rw q tt
  | inr q ↦ elim (Option-cases (get_refresh_token (svc.hash_token raw) s.tokens)) [
    | inl n ↦ rw q (rw n tt)
    | inr (row, n) ↦ elim (Bool-cases (is_some row.used_at)) [
      | inl m ↦ rw q (rw n (rw m tt))
      | inr m ↦ rw q (
          rw n (
            rw m (
              settled-Ensures _ env s (rotate svc env row s)
                (rotate-Rotated svc env raw s row k n))))
    ]
  ]
]

-- A refresh token that is exchanged was unspent and unexpired and belonged to a live account. The
-- exchange marks it spent, issues a signed session token for that account, and stores one new unspent
-- refresh token of the same account and family that is found by its hash; the accounts stay as they
-- were. The keys of the table are assumed distinct.
pub refresh-Rotated :
    (svc : AuthService) (env : AuthEnv) (raw : String) (s s' : AuthState) (session : Session)
    → IsKeyed s.tokens
    → refresh svc env raw s ≡ (done session, s')
    → Rotated svc env raw s session s'
refresh-Rotated svc env raw s s' session k e =
    Ensures-done (Rotated svc env raw s) (refresh svc env raw s) session s'
      (refresh-Ensures svc env raw s k) e
