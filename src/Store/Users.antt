-- ===== src/Store/Users.antt =====
-- The statements on `users` (backend/internal/store/db/users.sql.go). The unique address is that of
-- backend/migrations/000001_init.up.sql, `deleted_at` that of 000002_account_deletion.up.sql.
use dating_coach.Base.{
  ℕ, Bool, true, false, not, Option, none, some, List, ◌∷◌, String, text_eq, ◌==◌, ◌&&◌, ◌||◌,
  if◌then◌else◌, any, select, find_first, update_where,
}
use dating_coach.Store.Rows.{Time}

-- The `role` column, under its check constraint.
pub data Role : Type 0 where
  user_role coach_role admin_role : Role

pub record User : Type 0 where
  pub id : ℕ
  pub email : String
  pub password_hash : String
  pub display_name : String
  pub role : Role
  pub email_verified : Bool
  pub created_at : Time
  pub updated_at : Time
  pub deleted_at : Option Time
  pub dating_styles : List String
  pub phases_strong : List String
  pub phases_working_on : List String
  pub dating_preferences : String

abbrev pub Users : Type 0
Users = List User

-- deleted_at IS NULL
abbrev pub is_live : Option Time → Bool
is_live none = true
is_live (some t) = false

abbrev pub live_id : ℕ → User → Bool
live_id i u = u.id == i && is_live u.deleted_at

abbrev pub live_email : String → User → Bool
live_email email u = text_eq u.email email && is_live u.deleted_at

unfoldable pub get_user_by_id : ℕ → Users → Option User
get_user_by_id i users = find_first (live_id i) users

unfoldable pub get_user_by_email : String → Users → Option User
get_user_by_email email users = find_first (live_email email) users

unfoldable pub user_active : ℕ → Users → Bool
user_active i users = any (live_id i) users

unfoldable pub user_row_exists : ℕ → Users → Bool
user_row_exists i users = any (λ u. u.id == i) users

pub record CreateUserParams : Type 0 where
  pub email : String
  pub password_hash : String
  pub display_name : String
  pub role : Role

-- CreateUser inserts an address that is not verified yet, CreateVerifiedUser one that is.
unfoldable pub new_user : ℕ → Time → Bool → CreateUserParams → User
new_user id now verified p = record {
  id = id;
  email = p.email;
  password_hash = p.password_hash;
  display_name = p.display_name;
  role = p.role;
  email_verified = verified;
  created_at = now;
  updated_at = now;
  deleted_at = none;
  dating_styles = List.[];
  phases_strong = List.[];
  phases_working_on = List.[];
  dating_preferences = "";
}

-- A unique violation: also by the row of an account that is marked deleted.
unfoldable pub taken : ℕ → String → Users → Bool
taken id email users = any (λ u. u.id == id || text_eq u.email email) users

-- The new row and the table after it; none is the unique violation.
unfoldable pub insert_user : ℕ → Time → Bool → CreateUserParams → Users → Option (User × Users)
insert_user id now verified p users =
    if taken id p.email users
    then none
    else some (new_user id now verified p, new_user id now verified p ∷ users)

unfoldable pub verified_user : Time → User → User
verified_user now u = record u { email_verified = true; updated_at = now }

unfoldable pub verify_user_email : ℕ → Time → Users → Option User × Users
verify_user_email i now users = (
  find_first (live_id i) (update_where (live_id i) (verified_user now) users),
  update_where (live_id i) (verified_user now) users,
)

pub record DatingProfile : Type 0 where
  pub styles : List String
  pub strong : List String
  pub working_on : List String
  pub preferences : String

unfoldable pub profiled_user : DatingProfile → Time → User → User
profiled_user p now u = record u {
  dating_styles = p.styles;
  phases_strong = p.strong;
  phases_working_on = p.working_on;
  dating_preferences = p.preferences;
  updated_at = now;
}

unfoldable pub update_user_dating_profile : ℕ → DatingProfile → Time → Users → Option User × Users
update_user_dating_profile i p now users = (
  find_first (live_id i) (update_where (live_id i) (profiled_user p now) users),
  update_where (live_id i) (profiled_user p now) users,
)

-- DELETE FROM users WHERE id = $1; the cascade to other tables is the caller's.
unfoldable pub delete_user : ℕ → Users → Users
delete_user i users = select (λ u. not (u.id == i)) users

-- COALESCE(deleted_at, now())
abbrev pub or_now : Option Time → Time → Option Time
or_now none now = some now
or_now (some t) now = some t

unfoldable pub marked_user : Time → User → User
marked_user now u = record u { deleted_at = or_now u.deleted_at now; updated_at = now }
