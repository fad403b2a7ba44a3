-- ===== src/Store/Tokens.antt =====
-- The statements on `refresh_tokens` (backend/internal/store/db/refresh_tokens.sql.go).
use dating_coach.Base.{
  ℕ, Bool, not, Option, none, some, List, ◌∷◌, String, text_eq, ◌==◌, ◌&&◌, ltb, leb, if◌then◌else◌,
  any, select, find_first, update_where, is_some,
}
use dating_coach.Store.Rows.{Time}

pub record RefreshToken : Type 0 where
  pub id : ℕ
  pub user_id : ℕ
  pub token_hash : String
  pub issued_at : Time
  pub expires_at : Time
  pub used_at : Option Time
  pub family_id : ℕ

abbrev pub Tokens : Type 0
Tokens = List RefreshToken

abbrev pub hashed_as : String → RefreshToken → Bool
hashed_as hash t = text_eq t.token_hash hash

unfoldable pub get_refresh_token : String → Tokens → Option RefreshToken
get_refresh_token hash tokens = find_first (hashed_as hash) tokens

abbrev pub usable : ℕ → Time → RefreshToken → Bool
usable i now t = t.id == i && not (is_some t.used_at) && ltb now t.expires_at

unfoldable pub spent_token : Time → RefreshToken → RefreshToken
spent_token now t = record t { used_at = some now }

-- Whether a row was spent, and the table after it.
unfoldable pub use_refresh_token : ℕ → Time → Tokens → Bool × Tokens
use_refresh_token i now tokens =
    (any (usable i now) tokens, update_where (usable i now) (spent_token now) tokens)

unfoldable pub revoke_user_refresh_tokens : ℕ → Tokens → Tokens
revoke_user_refresh_tokens user_id tokens = select (λ t. not (t.user_id == user_id)) tokens

unfoldable pub delete_expired_refresh_tokens : Time → Tokens → Tokens
delete_expired_refresh_tokens now tokens = select (λ t. not (leb t.expires_at now)) tokens

-- The hash is unique; none is the violation.
unfoldable pub create_refresh_token : RefreshToken → Tokens → Option Tokens
create_refresh_token t tokens =
    if any (hashed_as t.token_hash) tokens then none else some (t ∷ tokens)
