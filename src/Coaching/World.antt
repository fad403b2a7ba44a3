-- ===== src/Coaching/World.antt =====
-- What a request of the coaching service runs in: the database, the calls made to the payment
-- provider, the clock readings, and the monad of a handler. A failing statement or a failed commit
-- rolls the database back and keeps the calls: money that moved has moved.
use dating_coach.Base.{
  ◌&&◌, ℕ, Bool, true, false, Option, none, some, List, [], ◌∷◌, String, if◌then◌else◌, ◌==◌,
}
use dating_coach.Store.Rows.{
  CoachingSession, CoachRow, UserRow, AvailabilityRow, PaymentEventRow, Time,
}
use dating_coach.Store.Table.{Rows, Write, written, slot_conflict, rejected, no_row, find_row}

-- backend/internal/coaching/ics.go, the parts of an invite that depend on the session.
pub data InviteMethod : Type 0 where
  request cancel : InviteMethod

pub data EventStatus : Type 0 where
  tentative event_confirmed event_cancelled : EventStatus

pub record Invite : Type 0 where
  pub method : InviteMethod
  pub event_status : EventStatus
  pub sequence : ℕ
  pub starts : Time
  pub ends : Time
  pub location : String

-- Which of the emails of backend/internal/coaching/emails.go a row of the outbox is. A flag says
-- that the coach is the recipient.
pub data MailKind : Type 0 where
  coach_request : Bool → String → MailKind
  client_requested client_confirmed client_declined client_expired : MailKind
  coach_confirmed coach_declined coach_expired : MailKind
  cancelled_by_coach cancelled_by_client coach_rescheduled : MailKind
  self_cancelled self_moved link_removed link_changed : Bool → MailKind

pub record OutboxMail : Type 0 where
  pub to_email : String
  pub kind : MailKind
  pub session_id : ℕ
  pub ics : Option Invite

pub record Db : Type 0 where
  pub sessions : Rows
  pub coaches : List CoachRow
  pub users : List UserRow
  pub availability : List AvailabilityRow
  pub payment_events : List PaymentEventRow
  pub outbox : List OutboxMail

-- A call of the payment provider, with its answer: true for success. Newest first.
pub data ProviderCall : Type 0 where
  checkout_created : ℕ → Bool → ProviderCall
  checkout_expired : String → Bool → ProviderCall
  captured released refunded : String → ℕ → Bool → ProviderCall

pub record World : Type 0 where
  pub db : Db
  pub calls : List ProviderCall

pub record CheckoutInput : Type 0 where
  pub session_id : ℕ
  pub amount_cents : ℕ
  pub customer_email : String
  pub expires_at : Time

pub record Checkout : Type 0 where
  pub ref : String
  pub url : String

-- payments.Provider: what the provider answers may depend on every call before.
pub record Provider : Type 0 where
  pub enabled : Bool
  pub create_checkout : List ProviderCall → CheckoutInput → Option Checkout
  pub expire_checkout : List ProviderCall → String → Bool
  pub capture : List ProviderCall → String → ℕ → Bool
  pub release : List ProviderCall → String → ℕ → Bool
  pub refund : List ProviderCall → String → ℕ → Bool

-- time.Location: the civil time of an instant, and time.Date from a day number, hour, minute and the
-- nanoseconds past the minute.
pub record Civil : Type 0 where
  pub day : ℕ
  pub weekday : ℕ
  pub hour : ℕ
  pub minute : ℕ
  pub below : Time

pub record Zone : Type 0 where
  pub civil : Time → Civil
  pub date : ℕ → ℕ → ℕ → Time → Time

-- The collaborators of coaching.Service: SHA-256 in hex, time.LoadLocation, UTC, the provider, and
-- how long a booking keeps its slot while it is paid for.
pub record Service : Type 0 where
  pub hash_token : String → String
  pub load_location : String → Option Zone
  pub utc : Zone
  pub payments : Provider
  pub hold_ttl : Time

-- One request: time.Now(), now() of the database, the random token (none: the generator failed),
-- the uuid of a new row, the rows other transactions hold, and whether a commit succeeds.
pub record Env : Type 0 where
  pub now : Time
  pub db_now : Time
  pub random_token : Option String
  pub new_id : ℕ
  pub held : ℕ → Bool
  pub commits : Bool

-- The sentinel errors; `internal` is every error that is none of them.
pub data Error : Type 0 where
  not_found forbidden invalid_input slot_taken unavailable expired_request payment_failed internal :
      Error

pub data Result {ℓ} (A : Type ℓ) : Type ℓ where
  ok : A → Result A
  err : Error → Result A

abbrev pub Tx : Type 0 → Type 0
Tx A = World → Result A × World

abbrev pub after : {A B : Type 0} → Result A × World → (A → Tx B) → Result B × World
after (ok a, w) f = f a w
after (err e, w) f = (err e, w)

infixl 5 ◌>>=◌ ◌>>◌
abbrev pub ◌>>=◌ : {A B : Type 0} → Tx A → (A → Tx B) → Tx B
◌>>=◌ m f w = after (m w) f

abbrev pub ◌>>◌ : {B : Type 0} → Tx (Unit {0}) → Tx B → Tx B
◌>>◌ m k w = after (m w) (λ _. k)

abbrev pub pure : {A : Type 0} → A → Tx A
pure a w = (ok a, w)

abbrev pub fail : {A : Type 0} → Error → Tx A
fail e w = (err e, w)

abbrev pub guard : Bool → Error → Tx (Unit {0})
guard true e w = (ok tt, w)
guard false e w = (err e, w)

abbrev pub required : {A : Type 0} → Option A → Error → Tx A
required none e w = (err e, w)
required (some a) e w = (ok a, w)

abbrev pub set_sessions : World → Rows → World
set_sessions w rows = record w { db = record (w.db) { sessions = rows } }

-- Begin, run, commit: an error or a failed commit restores the database.
abbrev pub settle : {A : Type 0} → Env → World → Result A × World → Result A × World
settle env w (ok a, w') =
    if env.commits then (ok a, w') else (err internal, record w' { db = w.db })
settle env w (err e, w') = (err e, record w' { db = w.db })

abbrev pub transaction : {A : Type 0} → Env → Tx A → Tx A
transaction env m w = settle env w (m w)

-- A `:one` statement; `e` is what the caller makes of pgx.ErrNoRows.
abbrev pub one_of : Error → World → Option CoachingSession × Rows → Result CoachingSession × World
one_of e w (none, rows) = (err e, w)
one_of e w (some r, rows) = (ok r, set_sessions w rows)

abbrev pub query_one : (Rows → Option CoachingSession × Rows) → Error → Tx CoachingSession
query_one statement e w = one_of e w (statement w.db.sessions)

-- An `:execrows` statement whose count the caller ignores.
abbrev pub exec : (Rows → Option CoachingSession × Rows) → Tx (Unit {0})
exec statement w = (ok tt, set_sessions w (statement w.db.sessions).1)

-- A statement that the table's constraints can refuse (isSlotConflict in errors.go).
abbrev pub write_result : Error → World → Write → Result CoachingSession × World
write_result e w (written r rows) = (ok r, set_sessions w rows)
write_result e w slot_conflict = (err slot_taken, w)
write_result e w rejected = (err internal, w)
write_result e w no_row = (err e, w)

abbrev pub query_write : (Rows → Write) → Error → Tx CoachingSession
query_write statement e w = write_result e w (statement w.db.sessions)

-- A call of the provider: recorded with its answer.
abbrev pub call : (List ProviderCall → Bool) → (Bool → ProviderCall) → Error → Tx (Unit {0})
call ask entry e w =
    let answer = ask w.calls in guard answer e (record w { calls = entry answer ∷ w.calls })

unfoldable pub find_coach : ℕ → List CoachRow → Option CoachRow
find_coach i [] = none
find_coach i (c ∷ cs) = let rest = find_coach i cs in if c.user_id == i then some c else rest

unfoldable pub find_user : ℕ → List UserRow → Option UserRow
find_user i [] = none
find_user i (u ∷ us) = let rest = find_user i us in if u.id == i then some u else rest

abbrev is_unmarked : Option Time → Bool
is_unmarked none = true
is_unmarked (some t) = false

-- GetUserByID: an account that is marked deleted is not found; the joins above see it.
unfoldable pub find_live_user : ℕ → List UserRow → Option UserRow
find_live_user i [] = none
find_live_user i (u ∷ us) =
    let rest = find_live_user i us in if u.id == i && is_unmarked u.deleted_at then some u else rest

-- participant: the session, for its client or its coach only.
unfoldable pub participant : ℕ → ℕ → Tx CoachingSession
participant session_id user_id = do
  session ← λ w. required (find_row session_id w.db.sessions) not_found w
  guard (if session.user_id == user_id then true else session.coach_id == user_id) forbidden
  pure session
