-- ===== src/Coaching/Effects.antt =====
-- What the parts of a handler do to the sessions: emails leave them alone, and a step that keeps a
-- property of the world passes it on.
use dating_coach.Store.Table.{Rows}
use dating_coach.Coaching.Mail.{
  Parties, mail_coach_calendar_update, mail_client_expired, get_session_parties,
}
use dating_coach.Base.{
  inr, inl, Bool-cases, ◌∙◌, false, refl, none, true, some, Option, ℕ, ◌≡◌, arith, Bool, String,
}
use dating_coach.Store.Status.{Status}
use dating_coach.Store.Rows.{CoachingSession}
use dating_coach.Coaching.World.{
  one_of, settle, set_sessions, Env, required, guard, err, after, ok, Result, Error, Tx, World,
}
use dating_coach.Coaching.Answers.{Action, notify_answer}
use dating_coach.Coaching.Booking.{notify_requested}
use dating_coach.Coaching.Changes.{notify_cancelled, notify_moved, notify_linked}

-- The sessions are what they were.
abbrev pub SameSessions : World → World → Type 0
SameSessions w w' = w'.db.sessions ≡ w.db.sessions

pub notify_answer-SameSessions :
    (action : Action) (i : ℕ) (w : World) → SameSessions w (notify_answer action i w).1
unfolding notify_answer
notify_answer-SameSessions action i w = ground arith

pub notify_requested-SameSessions :
    (i : ℕ) (token : String) (w : World) → SameSessions w (notify_requested i token w).1
unfolding notify_requested
notify_requested-SameSessions i token w = ground arith

pub notify_cancelled-SameSessions :
    (i : ℕ) (by_coach : Bool) (was : Status) (w : World)
    → SameSessions w (notify_cancelled i by_coach was w).1
unfolding notify_cancelled
notify_cancelled-SameSessions i by_coach was w = ground arith

pub notify_moved-SameSessions :
    (i : ℕ) (by_coach : Bool) (token : String) (w : World)
    → SameSessions w (notify_moved i by_coach token w).1
unfolding notify_moved
notify_moved-SameSessions i by_coach token w = ground arith

pub notify_linked-SameSessions :
    (s : CoachingSession) (w : World) → SameSessions w (notify_linked s w).1
unfolding notify_linked
notify_linked-SameSessions s w = ground arith

pub get_session_parties-SameSessions :
    (i : ℕ) (w : World) → SameSessions w (get_session_parties i w).1
unfolding get_session_parties
get_session_parties-SameSessions i w = ground arith

pub mail_client_expired-SameSessions :
    (p : Parties) (w : World) → SameSessions w (mail_client_expired p w).1
unfolding mail_client_expired
mail_client_expired-SameSessions p w = refl

pub mail_coach_calendar_update-SameSessions :
    (p : Parties) (w : World) → SameSessions w (mail_coach_calendar_update p w).1
unfolding mail_coach_calendar_update
mail_coach_calendar_update-SameSessions p w = ground arith

-- Two steps that leave the sessions alone.
pub same_after :
    {A B : Type 0} (r : Result A × World) (f : A → Tx B) (w : World)
    → SameSessions w r.1
    → ((a : A) (w' : World) → SameSessions w' (f a w').1)
    → SameSessions w (after r f).1
same_after (ok a, w') f w e k = k a w' ∙ e
same_after (err _, w') f w e k = e

-- Rules for the checks of a handler, which leave the world as it was.
module _ {A B : Type 0} (P : World → Type 0) (w : World) (f : A → Tx B) where
  pub read_then : (r : Result A) → P w → ((a : A) → r ≡ ok a → P (f a w).1) → P (after (r, w) f).1
  read_then (ok a) v k = k a refl
  read_then (err e) v k = v

  pub required_then :
      (o : Option A) (e : Error)
      → P w
      → ((a : A) → o ≡ some a → P (f a w).1)
      → P (after (required o e w) f).1
  required_then none e v k = v
  required_then (some a) e v k = k a refl

pub guard_then :
    {B : Type 0} (P : World → Type 0) (w : World) (f : Unit {0} → Tx B) (b : Bool) (e : Error)
    → P w
    → (b ≡ true → P (f tt w).1)
    → P (after (guard b e w) f).1
guard_then P w f true e v k = k refl
guard_then P w f false e v k = v

-- What holds of the world where a computation succeeds.
abbrev pub Post : {A : Type 0} → (World → Type 0) → Result A × World → Type 0
Post P (ok a, w) = P w
Post P (err e, w) = Unit {0}

pub after-Post :
    {A B : Type 0} (P Q : World → Type 0) (r : Result A × World) (f : A → Tx B)
    → Post P r
    → ((a : A) (w : World) → P w → Post Q (f a w))
    → Post Q (after r f)
after-Post P Q (ok a, w) f h k = k a w h
after-Post P Q (err e, w) f h k = tt

pub one_of-Post :
    {A : Type 0} (Q : World → Type 0) (e : Error) (w : World) (o : Option CoachingSession × Rows)
    (f : CoachingSession → Tx A)
    → ((r : CoachingSession) → o.0 ≡ some r → Post Q (f r (set_sessions w o.1)))
    → Post Q (after (one_of e w o) f)
one_of-Post Q e w (none, rows) f k = tt
one_of-Post Q e w (some r, rows) f k = k r refl

pub settle-Post :
    {A : Type 0} (P : World → Type 0) (env : Env) (w : World) (r : Result A × World)
    → Post P r
    → Post P (settle env w r)
settle-Post P env w (ok a, w') h = elim (Bool-cases env.commits) [
  | inl c ↦ simp c h
  | inr c ↦ simp c tt
]
settle-Post P env w (err e, w') h = tt

pub guard-Post :
    {B : Type 0} (P : World → Type 0) (w : World) (f : Unit {0} → Tx B) (b : Bool) (e : Error)
    → (b ≡ true → Post P (f tt w))
    → Post P (after (guard b e w) f)
guard-Post P w f true e k = k refl
guard-Post P w f false e k = tt

pub read-Post :
    {A B : Type 0} (P : World → Type 0) (w : World) (f : A → Tx B) (r : Result A)
    → ((a : A) → r ≡ ok a → Post P (f a w))
    → Post P (after (r, w) f)
read-Post P w f (ok a) k = k a refl
read-Post P w f (err e) k = tt

pub required-Post :
    {A B : Type 0} (P : World → Type 0) (w : World) (f : A → Tx B) (o : Option A) (e : Error)
    → ((a : A) → o ≡ some a → Post P (f a w))
    → Post P (after (required o e w) f)
required-Post P w f none e k = tt
required-Post P w f (some a) e k = k a refl

-- An error rolls the database back.
pub settle_err :
    {A : Type 0} (env : Env) (w : World) (r : Result A × World) (e : Error)
    → (settle env w r).0 ≡ err e
    → (settle env w r).1.db ≡ w.db
settle_err env w (ok a, w') e h = elim (Bool-cases env.commits) [
  | inl c ↦ ground (arith, c, h)
  | inr c ↦ simp c refl
]
settle_err env w (err x, w') e h = refl
