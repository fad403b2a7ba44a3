-- ===== src/Store/Deletions.antt =====
-- The statements on `account_deletions` (backend/internal/store/db/account_deletions.sql.go).
use dating_coach.Base.{
  ℕ, Bool, true, false, not, Option, none, some, List, ◌∷◌, map, ◌==◌, ◌&&◌, if◌then◌else◌, any,
  select, take, sort_by, update_where,
}
use dating_coach.Store.Rows.{Time}
use dating_coach.Store.Users.{Users, User, marked_user, user_row_exists, is_live}

pub record DeletionRow : Type 0 where
  pub user_id : ℕ
  pub requested_at : Time
  pub published_at : Option Time

abbrev pub Deletions : Type 0
Deletions = List DeletionRow

abbrev pub recorded_for : ℕ → DeletionRow → Bool
recorded_for i d = d.user_id == i

unfoldable pub requested_row : Time → DeletionRow → DeletionRow
requested_row now d = record d { requested_at = now; published_at = none }

-- INSERT … ON CONFLICT (user_id) DO UPDATE
unfoldable pub record_deletion : ℕ → Time → Deletions → Deletions
record_deletion i now rows =
    if any (recorded_for i) rows
    then update_where (recorded_for i) (requested_row now) rows
    else record { user_id = i; requested_at = now; published_at = none } ∷ rows

-- Whether a user was marked, and both tables after it.
unfoldable pub request_user_deletion : ℕ → Time → Users → Deletions → Bool × Users × Deletions
request_user_deletion i now users rows =
    if user_row_exists i users
    then (
      true,
      update_where (λ (u : User). u.id == i) (marked_user now) users,
      record_deletion i now rows,
    )
    else (false, users, rows)

unfoldable pub published_row : Time → DeletionRow → DeletionRow
published_row now d = record d { published_at = some now }

unfoldable pub mark_deletion_published : ℕ → Time → Deletions → Deletions
mark_deletion_published i now rows =
    update_where (λ d. recorded_for i d && is_live d.published_at) (published_row now) rows

unfoldable pub pending_deletions : ℕ → Deletions → List ℕ
pending_deletions limit rows =
    map (λ (d : DeletionRow). d.user_id)
      (take limit (sort_by (λ d. d.requested_at) (select (λ d. is_live d.published_at) rows)))

unfoldable pub finish_user_deletion : ℕ → Deletions → Deletions
finish_user_deletion i rows = select (λ d. not (recorded_for i d)) rows
