-- ===== src/Auth/Routes.antt =====
-- Which middleware stands before which routes (newRouter of backend/cmd/api/main.go).
use dating_coach.Base.{
  ◌≢◌, ◌∙◌, if◌then◌else◌, Bool, true, false, ◌≡◌, ◌↔◌, refl, ap, sym, arith, some, String, inl,
  inr, text_eq, Bool-cases, Option-cases,
}
use dating_coach.Store.Rows.{Time}
use dating_coach.Store.Users.{Role, user_role, coach_role, admin_role}
use dating_coach.Auth.World.{AuthService, Claims, Scope, verify_scope, session_scope, no_scope}
use dating_coach.Auth.Gate.{
  Principal, Door, unauthorized, forbidden, enters, is_coach, is_admin, principal_from,
  authenticate, require_scope, require_coach, require_admin,
}

-- The mounts under the private group: coaching, chat and analysis, /coach, and /admin.
pub data Area : Type 0 where
  everyone coach_area admin_area : Area

abbrev pub inner : Area → Door → Door
inner everyone d = d
inner coach_area d = require_coach d
inner admin_area d = require_admin d

unfoldable pub private_route : AuthService → Time → String → Area → Door
private_route svc now bearer area =
    inner area (require_scope session_scope (authenticate svc now bearer))

-- The areas a role is meant for.
abbrev pub may_use : Area → Role → Bool
may_use everyone r = true
may_use coach_area user_role = false
may_use coach_area coach_role = true
may_use coach_area admin_role = true
may_use admin_area user_role = false
may_use admin_area coach_role = false
may_use admin_area admin_role = true

pub record MayEnter (svc : AuthService) (now : Time) (bearer : String) (area : Area) (p : Principal)
    : Type 0 where
  pub claims : Claims
  pub present : text_eq bearer "" ≡ false
  pub parsed : svc.parse now bearer ≡ some claims
  pub for_session : claims.scope ≡ session_scope
  pub named : principal_from claims ≡ p
  pub allowed : may_use area claims.role ≡ true

inner_role :
    (area : Area) (q : Principal) (r : Role)
    → q.role ≡ r
    → inner area (enters q) ≡ (if may_use area r then enters q else forbidden)
unfolding require_coach require_admin is_coach is_admin
inner_role everyone q r e = refl
inner_role coach_area q user_role e = rw e refl
inner_role coach_area q coach_role e = rw e refl
inner_role coach_area q admin_role e = rw e refl
inner_role admin_area q user_role e = rw e refl
inner_role admin_area q coach_role e = rw e refl
inner_role admin_area q admin_role e = rw e refl

same_principal :
    (b : Bool) (q p : Principal)
    → (if b then enters q else forbidden) ≡ enters p
    → (q ≡ p) × (b ≡ true)
same_principal true q p e = (ground (arith, e), refl)
same_principal false q p e = ground (arith, e)

shut :
    (area : Area) (p : Principal)
    → (inner area unauthorized ≢ enters p) × (inner area forbidden ≢ enters p)
unfolding require_coach require_admin
shut everyone p = (λ e. ground (arith, e), λ e. ground (arith, e))
shut coach_area p = (λ e. ground (arith, e), λ e. ground (arith, e))
shut admin_area p = (λ e. ground (arith, e), λ e. ground (arith, e))

scoped :
    (q : Principal) → q.scope ≡ session_scope → require_scope session_scope (enters q) ≡ enters q
unfolding require_scope
scoped q z = rw z refl

claims-MayEnter :
    (svc : AuthService) (now : Time) (bearer : String) (area : Area) (p : Principal) (c : Claims)
    (sc : Scope)
    → c.scope ≡ sc
    → text_eq bearer "" ≡ false
    → svc.parse now bearer ≡ some c
    → inner area (require_scope session_scope (enters (principal_from c))) ≡ enters p
    → MayEnter svc now bearer area p
unfolding require_scope
claims-MayEnter svc now bearer area p c verify_scope z a b e =
    absurd ((shut area p).1 (simp z at e))
claims-MayEnter svc now bearer area p c no_scope z a b e = absurd ((shut area p).0 (simp z at e))
claims-MayEnter svc now bearer area p c session_scope z a b e =
    let q = principal_from c in
    let i = ap (inner area) (scoped q z) ∙ inner_role area q c.role refl in
    let (n, r) = same_principal (may_use area c.role) q p (sym i ∙ e) in
    record { claims = c; present = a; parsed = b; for_session = z; named = n; allowed = r }

private_route-MayEnter :
    (svc : AuthService) (now : Time) (bearer : String) (area : Area) (p : Principal)
    → private_route svc now bearer area ≡ enters p
    → MayEnter svc now bearer area p
unfolding private_route authenticate require_scope
private_route-MayEnter svc now bearer area p e = elim (Bool-cases (text_eq bearer "")) [
  | inl a ↦ absurd ((shut area p).0 (simp a at e))
  | inr a ↦ elim (Option-cases (svc.parse now bearer)) [
    | inl n ↦ absurd ((shut area p).0 (simp (a, n) at e))
    | inr (c, n) ↦ claims-MayEnter svc now bearer area p c c.scope refl a n (simp (a, n) at e)
  ]
]

MayEnter-private_route :
    (svc : AuthService) (now : Time) (bearer : String) (area : Area) (p : Principal)
    → MayEnter svc now bearer area p
    → private_route svc now bearer area ≡ enters p
unfolding private_route authenticate
MayEnter-private_route svc now bearer area p m =
    let q = principal_from m.claims in
    simp (m.present, m.parsed)
      (ap (inner area) (scoped q m.for_session)
        ∙ inner_role area q m.claims.role refl
        ∙ rw m.allowed (ap enters m.named))

-- A private route runs its handler, for a principal, exactly where the request has a token that
-- parses, its scope is a session's, the principal is what its claims say, and their role is one that
-- the route's area is meant for: any role for the routes of every account, a coach or an admin for
-- /coach, an admin for /admin.
pub private_route_iff :
    (svc : AuthService) (now : Time) (bearer : String) (area : Area) (p : Principal)
    → (private_route svc now bearer area ≡ enters p) ↔ MayEnter svc now bearer area p
private_route_iff svc now bearer area p =
    (private_route-MayEnter svc now bearer area p, MayEnter-private_route svc now bearer area p)
