-- ===== src/Base/Outcomes.antt =====
-- A request that reads and writes a state and may fail: the state it leaves is kept either way.
use mathlib.Core.Path.{◌≡◌, refl, subst}
use mathlib.Core.Bool.{Bool, true, false}
use mathlib.Core.Option.{Option, none, some}

pub data Outcome (E A : Type 0) : Type 0 where
  done : A → Outcome E A
  failed : E → Outcome E A

abbrev pub Run : Type 0 → Type 0 → Type 0 → Type 0
Run S E A = S → Outcome E A × S

abbrev pub bind : {S E A B : Type 0} → Outcome E A × S → (A → Run S E B) → Outcome E B × S
bind (done a, s) f = f a s
bind (failed e, s) f = (failed e, s)

infixl 5 ◌>>=◌ ◌>>◌
abbrev pub ◌>>=◌ : {S E A B : Type 0} → Run S E A → (A → Run S E B) → Run S E B
◌>>=◌ m f s = bind (m s) f

abbrev pub ◌>>◌ : {S E B : Type 0} → Run S E (Unit {0}) → Run S E B → Run S E B
◌>>◌ m k s = bind (m s) (λ _. k)

abbrev pub give : {S E A : Type 0} → A → Run S E A
give a s = (done a, s)

abbrev pub throw : {S E A : Type 0} → E → Run S E A
throw e s = (failed e, s)

abbrev pub check : {S E : Type 0} → Bool → E → Run S E (Unit {0})
check true e s = (done tt, s)
check false e s = (failed e, s)

abbrev pub demand : {S E A : Type 0} → Option A → E → Run S E A
demand none e s = (failed e, s)
demand (some a) e s = (done a, s)

-- A read of the state.
abbrev pub query : {S E A : Type 0} → (S → Option A) → E → Run S E A
query f e s = demand (f s) e s

-- A write that cannot fail.
abbrev pub modify : {S E : Type 0} → (S → S) → Run S E (Unit {0})
modify f s = (done tt, f s)

-- What a request leaves, where it succeeds.
abbrev pub Ensures : {S E A : Type 0} → (A → S → Type 0) → Outcome E A × S → Type 0
Ensures P (done a, s) = P a s
Ensures P (failed e, s) = Unit {0}

-- What a request keeps, on success and failure.
abbrev pub Keeps : {S E A : Type 0} → (S → Type 0) → Outcome E A × S → Type 0
Keeps P (r, s) = P s

pub bind-Keeps :
    {S E A B : Type 0} (P : S → Type 0) (r : Outcome E A × S) (f : A → Run S E B)
    → Keeps P r
    → ((a : A) (s : S) → P s → Keeps P (f a s))
    → Keeps P (bind r f)
bind-Keeps P (done a, s) f h k = k a s h
bind-Keeps P (failed e, s) f h k = h

pub bind-Ensures :
    {S E A B : Type 0} (P : A → S → Type 0) (Q : B → S → Type 0) (r : Outcome E A × S)
    (f : A → Run S E B)
    → Ensures P r
    → ((a : A) (s : S) → P a s → Ensures Q (f a s))
    → Ensures Q (bind r f)
bind-Ensures P Q (done a, s) f h k = k a s h
bind-Ensures P Q (failed e, s) f h k = tt

-- What holds of every success holds of this one.
pub Ensures-done :
    {S E A : Type 0} (P : A → S → Type 0) (r : Outcome E A × S) (a : A) (s : S)
    → Ensures P r
    → r ≡ (done a, s)
    → P a s
Ensures-done P r a s h e = subst (Ensures P) e h

pub Ensures-map :
    {S E A : Type 0} (P Q : A → S → Type 0) (r : Outcome E A × S)
    → ((a : A) (s : S) → P a s → Q a s)
    → Ensures P r
    → Ensures Q r
Ensures-map P Q (done a, s) k h = k a s h
Ensures-map P Q (failed e, s) k h = tt

-- What a request keeps of the state, and what it says of its answer.
abbrev pub Safe : {S E A : Type 0} → (S → Type 0) → (A → Type 0) → Outcome E A × S → Type 0
Safe P Q (done a, s) = P s × Q a
Safe P Q (failed e, s) = P s

pub bind-Safe :
    {S E A B : Type 0} (P : S → Type 0) (Q : A → Type 0) (R : B → Type 0) (r : Outcome E A × S)
    (f : A → Run S E B)
    → Safe P Q r
    → ((a : A) (s : S) → Q a → P s → Safe P R (f a s))
    → Safe P R (bind r f)
bind-Safe P Q R (done a, s) f h k = k a s h.1 h.0
bind-Safe P Q R (failed e, s) f h k = h

pub check-Safe :
    {S E : Type 0} (P : S → Type 0) (b : Bool) (e : E) (s : S)
    → P s
    → Safe P (λ (u : Unit {0}). b ≡ true) (check b e s)
check-Safe P true e s h = (h, refl)
check-Safe P false e s h = h

pub demand-Safe :
    {S E A : Type 0} (P : S → Type 0) (o : Option A) (e : E) (s : S)
    → P s
    → Safe P (λ a. o ≡ some a) (demand o e s)
demand-Safe P none e s h = h
demand-Safe P (some a) e s h = (h, refl)
