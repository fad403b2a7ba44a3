-- ===== src/Auth/Strikes.antt =====
-- A series of wrong verification codes (VerifyEmail of backend/internal/auth/service.go).
use dating_coach.Base.{
  ℕ, suc, ◌+◌, ◌≤◌, ◌≡◌, refl, arith, false, some, List, [], ◌∷◌, String, inl, inr, ==-refl, length,
  All, subst, ap,
}
use dating_coach.Base.Outcomes.{failed}
use dating_coach.Store.Rows.{Time}
use dating_coach.Store.Users.{User, get_user_by_email}
use dating_coach.Auth.World.{
  set_entry, AuthService, AuthState, invalid_code, address, Entry, set_entry,
}
use dating_coach.Auth.Codes.{store_entry, stored_code, increment_attempts}
use dating_coach.Auth.Verification.{is_right, verification_code_ttl, verify_email}
use dating_coach.Auth.Guesses.{
  Guess, submit, IsWrong, Answers, wrong_value, later, Budget-is_right, Ascends, last_time,
  HasExpired, Budget, refused_code, attempt-Budget, after_attempt,
}

submit-Budget :
    (svc : AuthService) (email value : String) (user : User) (used total : ℕ) (now : Time)
    (gs : List Guess) (s : AuthState)
    → total ≡ length gs + used
    → get_user_by_email (address svc email) s.users ≡ some user
    → user.email_verified ≡ false
    → Budget value used now (s.codes user.id)
    → All (IsWrong svc value) gs
    → Ascends now gs
    → (get_user_by_email (address svc email) (submit svc email gs s).users ≡ some user)
      × Budget value total (last_time now gs) ((submit svc email gs s).codes user.id)
submit-Budget svc email value user used total now [] s n f v b w l =
    let n' : used ≡ total = omega arith in
    (f, subst (λ k. Budget value k now (s.codes user.id)) n' b)
submit-Budget svc email value user used total now (g ∷ gs) s n f v b w l =
    let q =
      Budget-is_right value (svc.trim g.code) used now g.env.now (s.codes user.id) b l.0 w.0.0 in
    let b' = attempt-Budget value used now g.env.now (s.codes user.id) b l.0 in
    rw (refused_code svc email user g s f v q w.0.1, submit)
      (submit-Budget svc email value user (suc used) total g.env.now gs
        (set_entry s user.id (after_attempt (increment_attempts g.env.now (s.codes user.id))))
        (omega arith) f v (rw (==-refl user.id) b') w.1 l.1)

-- A fresh code has used none.
first-Budget :
    (value : String) (t : Time) → Budget value 0 t (store_entry t verification_code_ttl value)
unfolding store_entry
first-Budget value t = inr (record {
  code = record { value = value; expires_at = t + verification_code_ttl };
  attempts = record { count = 0; expires_at = t + verification_code_ttl };
  has_code = refl;
  has_attempts = refl;
  same_value = refl;
  same_expiry = refl;
  count = refl;
  in_budget = omega arith;
})

spent_budget :
    (value : String) (used : ℕ) (now : Time) (e : Entry)
    → Budget value used now e
    → 3 ≤ used
    → HasExpired now e.code
spent_budget value used now e (inl h) l = h
spent_budget value used now e (inr h) l = let b = h.in_budget in ground (arith, b)

spent_refuses :
    (code : String) (now t : Time) (e : Entry)
    → HasExpired now e.code
    → now ≤ t
    → is_right (stored_code t e) code ≡ false
unfolding stored_code
spent_refuses code now t e h l = wrong_value t e.code code (later now t e.code h l)

-- A stored code is worth three wrong guesses: once three or more wrong codes were sent for an
-- unverified account, one after the other and with Redis answering, no further request verifies it,
-- not even one with the right code. Each is refused as an invalid code until a new one is stored.
pub wrong_codes_use_up :
    (svc : AuthService) (email value : String) (user : User) (stored : Time) (gs : List Guess)
    (last : Guess) (s : AuthState)
    → get_user_by_email (address svc email) s.users ≡ some user
    → user.email_verified ≡ false
    → s.codes user.id ≡ store_entry stored verification_code_ttl value
    → All (IsWrong svc value) gs
    → 3 ≤ length gs
    → Ascends stored gs
    → last_time stored gs ≤ last.env.now
    → Answers last
    → (verify_email svc last.env email last.code last.bearer (submit svc email gs s)).0
      ≡ failed invalid_code
wrong_codes_use_up svc email value user stored gs last s f v c w n a l r =
    let (f', b) =
      submit-Budget svc email value user 0 (length gs) stored gs s (omega arith) f v
        (rw c (first-Budget value stored)) w a in
    let x = spent_budget value (length gs) (last_time stored gs) _ b n in
    let q = spent_refuses (svc.trim last.code) (last_time stored gs) last.env.now _ x l in
    ap (λ r. r.0) (refused_code svc email user last (submit svc email gs s) f' v q r)
