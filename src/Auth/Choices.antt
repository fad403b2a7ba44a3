-- ===== src/Auth/Choices.antt =====
-- The vocabularies of a dating profile (normaliseChoices of backend/internal/auth/service.go).
use dating_coach.Base.{
  Bool, true, false, not, ◌&&◌, ◌||◌, ◌≡◌, refl, ap, arith, Option, none, some, List, [], ◌∷◌,
  String, text_eq, any, select, inl, inr, Bool-cases, if◌then◌else◌,
}
use dating_coach.Auth.World.{AuthService, address}
use dating_coach.Auth.Profiles.{contains, checked_choice, chosen_of, in_order, normalise_choices}

-- A value that is blank once trimmed, or is in the vocabulary.
abbrev pub is_choice : AuthService → List String → String → Bool
is_choice svc vocabulary v = text_eq (address svc v) "" || contains vocabulary (address svc v)

abbrev pub all_choices : AuthService → List String → List String → Bool
all_choices svc vocabulary [] = true
all_choices svc vocabulary (v ∷ vs) = is_choice svc vocabulary v && all_choices svc vocabulary vs

-- Some value that is not blank is this one.
abbrev pub names : AuthService → List String → String → Bool
names svc values w = any (λ v. not (text_eq (address svc v) "") && text_eq (address svc v) w) values

-- The function in one line: the vocabulary's entries that are named, if every value is a choice.
abbrev pub named_choices : AuthService → List String → List String → Option (List String)
named_choices svc values vocabulary =
    if all_choices svc vocabulary values then some (select (names svc values) vocabulary) else none

abbrev Chosen : AuthService → List String → List String → Option (List String) → Type 0
Chosen svc vocabulary values none = all_choices svc vocabulary values ≡ false
Chosen svc vocabulary values (some chosen) =
    (all_choices svc vocabulary values ≡ true)
    × ((w : String) → contains chosen w ≡ names svc values w)

choice-Chosen :
    (svc : AuthService) (vocabulary : List String) (v : String) (vs : List String)
    (o : Option (List String))
    → Chosen svc vocabulary vs o
    → Chosen svc vocabulary (v ∷ vs) (checked_choice vocabulary (address svc v) o)
choice-Chosen svc vocabulary v vs none h = ground (arith, h)
choice-Chosen svc vocabulary v vs (some chosen) (a, c) =
    elim (Bool-cases (text_eq (address svc v) "")) [
      | inl b ↦ rw b (ground (arith, a, b), λ w. let e = c w in ground (arith, e, b))
      | inr b ↦ elim (Bool-cases (contains vocabulary (address svc v))) [
        | inl m ↦ rw b (rw m (ground (arith, a, m), λ w. let e = c w in ground (arith, e, b)))
        | inr m ↦ rw b (rw m (ground (arith, b, m)))
      ]
    ]

chosen_of-Chosen :
    (svc : AuthService) (vocabulary values : List String)
    → Chosen svc vocabulary values (chosen_of svc vocabulary values)
unfolding chosen_of
chosen_of-Chosen svc vocabulary [] = (refl, λ w. refl)
chosen_of-Chosen svc vocabulary (v ∷ vs) =
    choice-Chosen svc vocabulary v vs (chosen_of svc vocabulary vs)
      (chosen_of-Chosen svc vocabulary vs)

select_same :
    (p q : String → Bool) (ws : List String)
    → ((w : String) → p w ≡ q w)
    → select p ws ≡ select q ws
select_same p q [] e = refl
select_same p q (w ∷ ws) e = rw (e w, select_same p q ws e) refl

in_order_lem :
    (svc : AuthService) (values vocabulary : List String) (o : Option (List String))
    → Chosen svc vocabulary values o
    → in_order vocabulary o ≡ named_choices svc values vocabulary
in_order_lem svc values vocabulary none h = rw h refl
in_order_lem svc values vocabulary (some chosen) (a, c) =
    rw a (ap some (select_same (contains chosen) (names svc values) vocabulary c))

-- The loops over the values and the vocabulary compute what their comment says: if every value,
-- trimmed and in lower case, is blank or in the vocabulary, the result is the vocabulary's entries that
-- some value names, in the vocabulary's order and without duplicates from the values; otherwise the
-- values are refused.
pub normalise_choices_lem :
    (svc : AuthService) (values vocabulary : List String)
    → normalise_choices svc values vocabulary ≡ named_choices svc values vocabulary
unfolding normalise_choices
normalise_choices_lem svc values vocabulary =
    in_order_lem svc values vocabulary (chosen_of svc vocabulary values)
      (chosen_of-Chosen svc vocabulary values)
