-- ===== src/Auth/Guesses.antt =====
-- Wrong verification codes (VerifyEmail and recordFailedAttempt of backend/internal/auth/service.go,
-- incrementAttemptsScript of verifycache.go).
use dating_coach.Base.{
  Option-cases, ℕ, suc, ◌≤◌, ◌<◌, ◌≡◌, refl, sym, subst, arith, true, false, Option, none, some,
  List, [], ◌∷◌, String, inl, inr, ◌⊎◌, text_eq, ltb, leb, Bool-cases, if◌then◌else◌,
}
use dating_coach.Base.Outcomes.{failed}
use dating_coach.Store.Rows.{Time}
use dating_coach.Store.Users.{User, get_user_by_email}
use dating_coach.Auth.World.{
  AuthService, AuthEnv, AuthState, invalid_code, Code, Counter, Entry, read_code, count_attempt,
  drop_code, set_entry, address,
}
use dating_coach.Auth.Codes.{
  stored_code, increment_attempts, counted_entry, live_value, live_count, no_entry,
}
use dating_coach.Auth.Verification.{
  verify_email, confirm_email, check_code, refuse_code, is_right, record_failed_attempt,
}

-- One request to verify an address.
pub record Guess : Type 0 where
  pub env : AuthEnv
  pub code : String
  pub bearer : String

abbrev pub submit : AuthService → String → List Guess → AuthState → AuthState
submit svc email [] s = s
submit svc email (g ∷ gs) s = submit svc email gs (verify_email svc g.env email g.code g.bearer s).1

-- Redis answers.
abbrev pub Answers : Guess → Type 0
Answers g =
    (g.env.answers read_code ≡ true)
    × (g.env.answers count_attempt ≡ true)
    × (g.env.answers drop_code ≡ true)

abbrev pub IsWrong : AuthService → String → Guess → Type 0
IsWrong svc code g = (text_eq code (svc.trim g.code) ≡ false) × Answers g

abbrev pub Ascends : Time → List Guess → Type 0
Ascends t [] = Unit
Ascends t (g ∷ gs) = (t ≤ g.env.now) × Ascends g.env.now gs

abbrev pub last_time : Time → List Guess → Time
last_time t [] = t
last_time t (g ∷ gs) = last_time g.env.now gs

abbrev pub HasExpired : Time → Option Code → Type 0
HasExpired now none = Unit {0}
HasExpired now (some c) = c.expires_at ≤ now

abbrev pub IsExpired : Time → Entry → Type 0
IsExpired now e = HasExpired now e.code

-- The code that was stored, after `used` wrong attempts.
pub record Counted (value : String) (used : ℕ) (e : Entry) : Type 0 where
  pub code : Code
  pub attempts : Counter
  pub has_code : e.code ≡ some code
  pub has_attempts : e.attempts ≡ some attempts
  pub same_value : code.value ≡ value
  pub same_expiry : attempts.expires_at ≡ code.expires_at
  pub count : attempts.count ≡ used
  pub in_budget : used < 3

abbrev pub Budget : String → ℕ → Time → Entry → Type 0
Budget value used now e = IsExpired now e ⊎ Counted value used e

pub wrong_value :
    (t : Time) (c : Option Code) (code : String)
    → HasExpired t c
    → is_right (live_value t c) code ≡ false
wrong_value t none code h = refl
wrong_value t (some c) code h = let n : ltb t c.expires_at ≡ false = ground arith in rw n refl

pub later : (now t : Time) (c : Option Code) → HasExpired now c → now ≤ t → HasExpired t c
later now t none h l = tt
later now t (some c) h l = omega arith

pub Budget-is_right :
    (value code : String) (used : ℕ) (now t : Time) (e : Entry)
    → Budget value used now e
    → now ≤ t
    → text_eq value code ≡ false
    → is_right (stored_code t e) code ≡ false
unfolding stored_code
Budget-is_right value code used now t e (inl h) l n =
    wrong_value t e.code code (later now t e.code h l)
Budget-is_right value code used now t e (inr h) l n = rw h.has_code (
    rw h.same_value (elim (Bool-cases (ltb t h.code.expires_at)) [
      | inl q ↦ rw q (ground (arith, n))
      | inr q ↦ rw q refl
    ]))

-- The entry that one wrong attempt more leaves.
abbrev pub after_attempt : ℕ × Entry → Entry
after_attempt (n, e) = if leb 3 n then no_entry else e

unseen_attempt :
    (t : Time) (e : Entry)
    → HasExpired t e.code
    → increment_attempts t e ≡ (0, record e { attempts = none })
unfolding increment_attempts
unseen_attempt t e h = elim (Option-cases e.code) [
  | inl n ↦ rw n refl
  | inr (c, n) ↦
      let h' = subst (HasExpired t) n h in
      let q : ltb t c.expires_at ≡ false = ground arith in rw n (rw q refl)
]

seen_attempt :
    (t : Time) (e : Entry) (c : Code)
    → e.code ≡ some c
    → ltb t c.expires_at ≡ true
    → increment_attempts t e ≡ counted_entry t e c
unfolding increment_attempts
seen_attempt t e c n q = rw n (rw q refl)

expired-Budget :
    (value : String) (used : ℕ) (t : Time) (e : Entry)
    → HasExpired t e.code
    → Budget value (suc used) t (after_attempt (increment_attempts t e))
expired-Budget value used t e h = rw (unseen_attempt t e h) (inl h)

live-Budget :
    (value : String) (used : ℕ) (t : Time) (e : Entry)
    → (h : Counted value used e) → ltb t h.code.expires_at ≡ true
    → Budget value (suc used) t (after_attempt (increment_attempts t e))
live-Budget value used t e h q =
    let q' : ltb t h.attempts.expires_at ≡ true = rw h.same_expiry q in
    let n : live_count t e.attempts ≡ used = rw h.has_attempts (rw q' h.count) in
    elim (Bool-cases (leb 3 (suc used))) [
      | inl m ↦ rw (seen_attempt t e h.code h.has_code q) (rw n (rw m (inl tt)))
      | inr m ↦ rw (seen_attempt t e h.code h.has_code q) (
          rw n (
            rw m (
              inr (record {
                code = h.code;
                attempts = record { count = suc used; expires_at = h.code.expires_at };
                has_code = h.has_code;
                has_attempts = refl;
                same_value = h.same_value;
                same_expiry = refl;
                count = refl;
                in_budget = ground arith;
              }))))
    ]

pub attempt-Budget :
    (value : String) (used : ℕ) (now t : Time) (e : Entry)
    → Budget value used now e
    → now ≤ t
    → Budget value (suc used) t (after_attempt (increment_attempts t e))
attempt-Budget value used now t e (inl h) l = expired-Budget value used t e (later now t e.code h l)
attempt-Budget value used now t e (inr h) l = elim (Bool-cases (ltb t h.code.expires_at)) [
  | inl q ↦ live-Budget value used t e h q
  | inr q ↦ expired-Budget value used t e (subst (HasExpired t) (sym h.has_code) (ground arith))
]

-- A code that is not the stored one is refused and leaves the entry with one attempt more.
pub refused_code :
    (svc : AuthService) (email : String) (user : User) (g : Guess) (s : AuthState)
    → get_user_by_email (address svc email) s.users ≡ some user
    → user.email_verified ≡ false
    → is_right (stored_code g.env.now (s.codes user.id)) (svc.trim g.code) ≡ false
    → Answers g
    → verify_email svc g.env email g.code g.bearer s ≡ (
      failed invalid_code,
      set_entry s user.id (after_attempt (increment_attempts g.env.now (s.codes user.id))),
    )
unfolding verify_email confirm_email check_code refuse_code record_failed_attempt
refused_code svc email user g s f v q (r, c, d) =
    elim (Bool-cases (leb 3 (increment_attempts g.env.now (s.codes user.id)).0)) [
      | inl m ↦ rw f (rw v (rw r (rw q (rw c (rw m (rw d refl))))))
      | inr m ↦ rw f (rw v (rw r (rw q (rw c (rw m refl)))))
    ]
