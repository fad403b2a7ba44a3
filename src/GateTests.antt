-- ===== src/GateTests.antt =====
-- Runs of the rate limiter, the middleware and the choices of a dating profile.
use dating_coach.Base.{◌-◌, ◌≤◌, ◌≡◌, ◌↔◌, refl, arith, true, none, some, List, [], ◌∷◌}
use dating_coach.Store.Rows.{Time}
use dating_coach.Store.Users.{admin_role}
use dating_coach.Auth.World.{AuthService, Claims, session_scope}
use dating_coach.Auth.Profiles.{chosen_of, normalise_choices, dating_phases}
use dating_coach.Auth.Choices.{named_choices, normalise_choices_lem}
use dating_coach.Auth.Gate.{allow, Buckets, Limiter, Hit, Principal, enters}
use dating_coach.Auth.Throttle.{allowed, at_most_limit_allowed}
use dating_coach.Auth.Routes.{MayEnter, private_route, private_route_iff, admin_area}
use dating_coach.AccountTests.{service}

normalise_choices_lem_example :
    normalise_choices service ("opening" ∷ "" ∷ "flirting" ∷ "opening" ∷ []) dating_phases
    ≡ named_choices service ("opening" ∷ "" ∷ "flirting" ∷ "opening" ∷ []) dating_phases
normalise_choices_lem_example =
    normalise_choices_lem service ("opening" ∷ "" ∷ "flirting" ∷ "opening" ∷ []) dating_phases

in_the_vocabulary_order :
    normalise_choices service ("flirting" ∷ "" ∷ "opening" ∷ "flirting" ∷ []) dating_phases
    ≡ some ("opening" ∷ "flirting" ∷ [])
unfolding normalise_choices chosen_of
in_the_vocabulary_order = refl

-- Two requests a window of ten.
abbrev two_of_ten : Limiter
two_of_ten = record { limit = 2; window = 10 }

abbrev hit : Time → Hit
hit t = record { key = "10.0.0.1"; now = t; increments = true; expires = true }

abbrev hits : List Hit
hits = hit 31 ∷ hit 33 ∷ hit 38 ∷ hit 41 ∷ hit 39 ∷ []

abbrev no_keys : Buckets
no_keys k i = none

third_is_refused : allowed two_of_ten "10.0.0.1" 3 hits no_keys ≡ 2
unfolding allow
third_is_refused = refl

at_most_limit_allowed_example : allowed two_of_ten "10.0.0.1" 3 hits no_keys ≤ 2 - 0
at_most_limit_allowed_example =
    at_most_limit_allowed two_of_ten "10.0.0.1" 3 hits no_keys (omega arith) tt

-- A token is its holder's claims.
abbrev admin : Claims
admin = record {
  subject = 1;
  role = admin_role;
  email = "ada@example.com";
  scope = session_scope;
  expires_at = 900;
}

abbrev parsing : AuthService
parsing = record service { parse = λ now t. some admin }

abbrev ada : Principal
ada = record {
  user_id = 1;
  email = "ada@example.com";
  role = admin_role;
  scope = session_scope;
  expires_at = 900;
}

private_route_iff_example :
    (private_route parsing 5 "jwt" admin_area ≡ enters ada)
    ↔ MayEnter parsing 5 "jwt" admin_area ada
private_route_iff_example = private_route_iff parsing 5 "jwt" admin_area ada

admin_MayEnter : MayEnter parsing 5 "jwt" admin_area ada
admin_MayEnter = record {
  claims = admin;
  present = refl;
  parsed = refl;
  for_session = refl;
  named = refl;
  allowed = refl;
}
