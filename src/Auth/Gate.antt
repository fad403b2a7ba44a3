-- ===== src/Auth/Gate.antt =====
-- Who gets past the door: RateLimiter of backend/internal/auth/ratelimit.go, Middleware, RequireScope,
-- RequireCoach and RequireAdmin of middleware.go. ClientIP and bearerToken are parsed before the model.
use dating_coach.Base.{
  not, ℕ, ◌+◌, ◌/◌, Bool, true, false, ◌&&◌, Option, none, some, String, text_eq, ◌==◌, leb,
  if◌then◌else◌,
}
use dating_coach.Store.Rows.{Time}
use dating_coach.Store.Users.{Role, user_role, coach_role, admin_role}
use dating_coach.Auth.World.{AuthService, Claims, Scope, verify_scope, session_scope, no_scope}

-- One key of Redis; a failed Expire leaves it without an expiry.
pub record Bucket : Type 0 where
  pub count : ℕ
  pub expires_at : Option Time

-- By client and by window.
abbrev pub Buckets : Type 0
Buckets = String → ℕ → Option Bucket

pub record Limiter : Type 0 where
  pub limit : ℕ
  pub window : Time

-- One request: who, when, and which calls of Redis answer.
pub record Hit : Type 0 where
  pub key : String
  pub now : Time
  pub increments : Bool
  pub expires : Bool

abbrev pub has_passed : Time → Option Time → Bool
has_passed now none = false
has_passed now (some t) = leb t now

-- Incr: the count, and the expiry that the key keeps.
abbrev pub incremented : Time → Option Bucket → Bucket
incremented now none = record { count = 1; expires_at = none }
incremented now (some b) =
    if has_passed now b.expires_at
    then record { count = 1; expires_at = none }
    else record b { count = b.count + 1 }

abbrev pub put_bucket : String → ℕ → Bucket → Buckets → Buckets
put_bucket key i b buckets k j = if text_eq k key && j == i then some b else buckets k j

-- Expire, once a window has begun.
abbrev pub expiring : Limiter → Hit → Bucket → Bucket
expiring l h b =
    if b.count == 1 && h.expires then record b { expires_at = some (h.now + l.window) } else b

abbrev pub answered : Limiter → Hit → Bucket → Option Bool
answered l h b = if b.count == 1 && not (h.expires) then none else some (leb b.count l.limit)

abbrev pub bucket_of : Limiter → Hit → Buckets → Bucket
bucket_of l h buckets = incremented h.now (buckets h.key (h.now / l.window))

-- The answer, none for an error, and the keys after it.
unfoldable pub allow : Limiter → Hit → Buckets → Option Bool × Buckets
allow l h buckets =
    if h.increments
    then (
      answered l h (bucket_of l h buckets),
      put_bucket h.key (h.now / l.window) (expiring l h (bucket_of l h buckets)) buckets,
    )
    else (none, buckets)

-- An outage of Redis fails open.
abbrev pub lets_in : Option Bool → Bool
lets_in none = true
lets_in (some b) = b

pub record Principal : Type 0 where
  pub user_id : ℕ
  pub email : String
  pub role : Role
  pub scope : Scope
  pub expires_at : Time

unfoldable pub is_coach : Principal → Bool
is_coach p = elim p.role [ user_role ↦ false | coach_role ↦ true | admin_role ↦ true ]

unfoldable pub is_admin : Principal → Bool
is_admin p = elim p.role [ user_role ↦ false | coach_role ↦ false | admin_role ↦ true ]

-- What a middleware answers, or the principal that it passes on.
pub data Door : Type 0 where
  unauthorized forbidden too_many : Door
  enters : Principal → Door

abbrev pub principal_from : Claims → Principal
principal_from c = record {
  user_id = c.subject;
  email = c.email;
  role = c.role;
  scope = c.scope;
  expires_at = c.expires_at;
}

abbrev pub principal_of : Option Claims → Door
principal_of none = unauthorized
principal_of (some c) = enters (principal_from c)

-- Middleware
unfoldable pub authenticate : AuthService → Time → String → Door
authenticate svc now bearer =
    if text_eq bearer "" then unauthorized else principal_of (svc.parse now bearer)

abbrev pub scope_is : Scope → Scope → Bool
scope_is verify_scope verify_scope = true
scope_is session_scope session_scope = true
scope_is no_scope no_scope = true
scope_is _ _ = false

-- A token from before scopes existed signs the caller out.
unfoldable pub require_scope : Scope → Door → Door
require_scope wanted unauthorized = unauthorized
require_scope wanted forbidden = forbidden
require_scope wanted too_many = too_many
require_scope wanted (enters p) =
    if scope_is p.scope no_scope
    then unauthorized
    else (if scope_is p.scope wanted then enters p else forbidden)

unfoldable pub require_coach : Door → Door
require_coach unauthorized = unauthorized
require_coach forbidden = forbidden
require_coach too_many = too_many
require_coach (enters p) = if is_coach p then enters p else forbidden

unfoldable pub require_admin : Door → Door
require_admin unauthorized = unauthorized
require_admin forbidden = forbidden
require_admin too_many = too_many
require_admin (enters p) = if is_admin p then enters p else forbidden
