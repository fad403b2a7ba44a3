-- ===== src/Coaching/Sound/Handlers.antt =====
-- What the proofs about handlers share: a world with a sound table, and steps that keep it.
use dating_coach.Base.{arith, Option, none, some, subst, sym}
use dating_coach.Coaching.World.{required, World, Tx, Result, ok, err, after, Env, settle, Error}
use dating_coach.Coaching.Effects.{SameSessions}
use dating_coach.Coaching.Sound.{IsSound}

abbrev pub WorldSound : World → Type 0
WorldSound w = IsSound w.db.sessions

-- What a transaction body owes: a sound table where it succeeds.
abbrev pub Lands : {A : Type 0} → Result A × World → Type 0
Lands (ok a, w) = WorldSound w
Lands (err e, w) = Unit {0}

pub settle-WorldSound :
    {A : Type 0} (env : Env) (w : World) (r : Result A × World)
    → WorldSound w
    → Lands r
    → WorldSound (settle env w r).1
settle-WorldSound env w (ok a, w') v l = ground arith
settle-WorldSound env w (err e, w') v l = v

pub after-Lands :
    {A B : Type 0} (r : Result A × World) (f : A → Tx B)
    → Lands r
    → ((a : A) (w : World) → WorldSound w → Lands (f a w))
    → Lands (after r f)
after-Lands (ok a, w) f l k = k a w l
after-Lands (err e, w) f l k = tt

pub after-WorldSound :
    {A B : Type 0} (r : Result A × World) (f : A → Tx B)
    → WorldSound r.1
    → ((a : A) (w : World) → WorldSound w → WorldSound (f a w).1)
    → WorldSound (after r f).1
after-WorldSound (ok a, w) f l k = k a w l
after-WorldSound (err e, w) f l k = l

pub required-Lands :
    {A B : Type 0} (o : Option A) (e : Error) (w : World) (f : A → Tx B)
    → ((a : A) → Lands (f a w))
    → Lands (after (required o e w) f)
required-Lands none e w f k = tt
required-Lands (some a) e w f k = k a

-- Emails after a sound step.
pub notified-Lands :
    {A : Type 0} (a : A) (r : Result (Unit {0}) × World) (w : World)
    → SameSessions w r.1
    → WorldSound w
    → Lands (after r λ _ w'. (ok a, w'))
notified-Lands a (ok _, w') w e v = subst IsSound (sym e) v
notified-Lands a (err _, w') w e v = tt
