-- ===== src/Auth/Codes.antt =====
-- VerificationCache of backend/internal/auth/verifycache.go: a code and the count of wrong attempts,
-- each with its own expiry in Redis. A key whose expiry has come is absent.
use dating_coach.Base.{ℕ, suc, ◌+◌, Option, none, some, String, ltb, if◌then◌else◌}
use dating_coach.Store.Rows.{Time}
use dating_coach.Auth.World.{Code, Counter, Entry}

abbrev pub live_value : Time → Option Code → String
live_value now none = ""
live_value now (some c) = if ltb now c.expires_at then c.value else ""

abbrev pub live_count : Time → Option Counter → ℕ
live_count now none = 0
live_count now (some c) = if ltb now c.expires_at then c.count else 0

-- Store
unfoldable pub store_entry : Time → Time → String → Entry
store_entry now ttl code = record {
  code = some (record { value = code; expires_at = now + ttl });
  attempts = some (record { count = 0; expires_at = now + ttl });
}

-- Get, of which VerifyEmail reads the code only.
unfoldable pub stored_code : Time → Entry → String
stored_code now e = live_value now e.code

abbrev pub counted_entry : Time → Entry → Code → ℕ × Entry
counted_entry now e c = (
  suc (live_count now e.attempts),
  record e {
    attempts = some (record { count = suc (live_count now e.attempts); expires_at = c.expires_at });
  },
)

-- incrementAttemptsScript
unfoldable pub increment_attempts : Time → Entry → ℕ × Entry
increment_attempts now e = elim e.code [
  | none ↦ (0, record e { attempts = none })
  | some c ↦
      if ltb now c.expires_at then counted_entry now e c else (0, record e { attempts = none })
]

-- Invalidate
abbrev pub no_entry : Entry
no_entry = record { code = none; attempts = none }
