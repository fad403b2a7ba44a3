-- ===== src/Auth/Profiles.antt =====
-- normaliseChoices, UpdateDatingProfile and Profile of backend/internal/auth/service.go.
use dating_coach.Base.{
  ℕ, Bool, not, Option, none, some, List, [], ◌∷◌, String, text_eq, leb, any, select, if◌then◌else◌,
}
use dating_coach.Base.Outcomes.{◌>>=◌, ◌>>◌, give, check, demand, query}
use dating_coach.Store.Users.{DatingProfile, get_user_by_id, update_user_dating_profile}
use dating_coach.Auth.World.{AuthService, AuthEnv, invalid_input, internal, AuthRun, address}
use dating_coach.Auth.Sessions.{Profile, profile_of, confirmed}

abbrev pub dating_styles : List String
dating_styles =
    "in_person" ∷ "tinder" ∷ "hinge" ∷ "bumble" ∷ "coffee_meets_bagel" ∷ "match" ∷ "okcupid"
    ∷ "feeld" ∷ "speed_dating" ∷ "friends_intro" ∷ []

abbrev pub dating_phases : List String
dating_phases =
    "opening" ∷ "first_messages" ∷ "building_rapport" ∷ "flirting" ∷ "asking_out" ∷ "first_date"
    ∷ "follow_up" ∷ "defining_relationship" ∷ []

abbrev pub max_dating_preferences_len : ℕ
max_dating_preferences_len = 2000

-- slices.Contains, and a look-up in the map of chosen values.
abbrev pub contains : List String → String → Bool
contains vs v = any (λ w. text_eq w v) vs

abbrev pub checked_choice : List String → String → Option (List String) → Option (List String)
checked_choice vocabulary v none = none
checked_choice vocabulary v (some chosen) =
    if text_eq v ""
    then some chosen
    else (if contains vocabulary v then some (v ∷ chosen) else none)

-- The values that are chosen; none for a value that is not in the vocabulary.
unfoldable pub chosen_of : AuthService → List String → List String → Option (List String)
chosen_of svc vocabulary [] = some []
chosen_of svc vocabulary (v ∷ vs) =
    checked_choice vocabulary (address svc v) (chosen_of svc vocabulary vs)

abbrev pub in_order : List String → Option (List String) → Option (List String)
in_order vocabulary none = none
in_order vocabulary (some chosen) = some (select (contains chosen) vocabulary)

unfoldable pub normalise_choices : AuthService → List String → List String → Option (List String)
normalise_choices svc values vocabulary = in_order vocabulary (chosen_of svc vocabulary values)

abbrev pub share : List String → List String → Bool
share ps qs = any (contains qs) ps

-- `rune_count` is utf8.RuneCountInString.
unfoldable pub valid_profile : AuthService → (String → ℕ) → DatingProfile → AuthRun DatingProfile
valid_profile svc rune_count input = do
  styles ← demand (normalise_choices svc input.styles dating_styles) invalid_input
  strong ← demand (normalise_choices svc input.strong dating_phases) invalid_input
  working ← demand (normalise_choices svc input.working_on dating_phases) invalid_input
  check (not (share strong working)) invalid_input
  check (leb (rune_count (svc.trim input.preferences)) max_dating_preferences_len) invalid_input
  give (record {
    styles = styles;
    strong = strong;
    working_on = working;
    preferences = svc.trim input.preferences;
  })

unfoldable pub update_dating_profile :
    AuthService → (String → ℕ) → AuthEnv → ℕ → DatingProfile → AuthRun Profile
update_dating_profile svc rune_count env user_id input = do
  profile ← valid_profile svc rune_count input
  user ← λ s. confirmed (update_user_dating_profile user_id profile env.db_now s.users) s
  give (profile_of user)

unfoldable pub profile : ℕ → AuthRun Profile
profile user_id = do
  user ← query (λ s. get_user_by_id user_id s.users) internal
  give (profile_of user)
