-- ===== src/Base/Tables.antt =====
-- SQL statements on a table that is a list of rows: SELECT of the first match, UPDATE and DELETE by a
-- condition, and what they keep.
use mathlib.Core.Path.{◌≡◌, refl}
use mathlib.Core.Bool.{Bool, true, false}
use mathlib.Core.Option.{Option, none, some}
use mathlib.Core.List.{List, [], ◌∷◌}
use native.Mathlib.Omega.{arith}
use dating_coach.Base.Tests.{if◌then◌else◌}
use dating_coach.Base.Lists.{All, select}

module _ {ℓ} {A : Type ℓ} where
  abbrev pub find_first : (A → Bool) → List A → Option A
  find_first p [] = none
  find_first p (x ∷ xs) = let rest = find_first p xs in if p x then some x else rest

  abbrev pub update_where : (A → Bool) → (A → A) → List A → List A
  update_where p f [] = []
  update_where p f (x ∷ xs) = (if p x then f x else x) ∷ update_where p f xs

  pub All-find_first {κ} :
      (P : A → Type κ) (p : A → Bool) (a : A) (xs : List A)
      → All P xs
      → find_first p xs ≡ some a
      → P a
  All-find_first P p a [] h e = cc
  All-find_first P p a (x ∷ xs) h e = ground (arith, All-find_first P p a xs h.1)

  -- What is found passes the test.
  pub find_first_holds :
      (p : A → Bool) (a : A) (xs : List A) → find_first p xs ≡ some a → p a ≡ true
  find_first_holds p a [] e = cc
  find_first_holds p a (x ∷ xs) e = ground (arith, find_first_holds p a xs)

  pub find_first-none :
      (p : A → Bool) (xs : List A) → All (λ x. p x ≡ false) xs → find_first p xs ≡ none
  find_first-none p [] h = refl
  find_first-none p (x ∷ xs) h = ground (arith, find_first-none p xs h.1)

  pub All-update_where {κ} :
      (P : A → Type κ) (p : A → Bool) (f : A → A) (xs : List A)
      → ((x : A) → P x → p x ≡ true → P (f x))
      → All P xs
      → All P (update_where p f xs)
  All-update_where P p f [] k h = tt
  All-update_where P p f (x ∷ xs) k h = ground (arith, k x h.0, All-update_where P p f xs k h.1)

  -- What is left by a DELETE passes the test.
  pub select-All : (p : A → Bool) (xs : List A) → All (λ x. p x ≡ true) (select p xs)
  select-All p [] = tt
  select-All p (x ∷ xs) = ground (arith, select-All p xs)
