-- ===== src/AccountTests.antt =====
-- Concrete runs of the accounts' services: two accounts, a refresh token and a code.
use dating_coach.Base.{
  ◌≤◌, select, length, ℕ, ◌+◌, ◌*◌, ◌^◌, ◌≡◌, ◌≢◌, ◌↔◌, refl, arith, Bool, true, false, none, some,
  List, [], ◌∷◌, String, All, text_eq, ◌||◌,
}
use dating_coach.Base.Outcomes.{done, failed}
use dating_coach.Store.Rows.{Time, minute, hour}
use dating_coach.Store.Users.{
  user_row_exists, User, user_role, is_live, get_user_by_email, get_user_by_id, marked_user,
}
use dating_coach.Store.Tokens.{
  RefreshToken, get_refresh_token, use_refresh_token, create_refresh_token,
  revoke_user_refresh_tokens, spent_token,
}
use dating_coach.Store.Deletions.{record_deletion, request_user_deletion, mark_deletion_published}
use dating_coach.Store.Outbox.{EmailRow, due_email}
use dating_coach.Auth.World.{AuthService, AuthEnv, AuthState, invalid_code, invalid_refresh_token}
use dating_coach.Auth.Codes.{store_entry}
use dating_coach.Auth.Sessions.{
  Session, profile_of, refresh, rotate, exchange, open_session, issue_refresh_token, refresh_row,
  claims_for, sign_in,
}
use dating_coach.Auth.Verification.{
  send_code, resend_verification, verification_code_ttl, verify_email,
}
use dating_coach.Auth.Accounts.{queue_deletion, deny, delete_account}
use dating_coach.Auth.Requests.{Request, signs_in, refreshes, resends, serve, serve_all}
use dating_coach.Auth.Rotation.{Rotated, refresh-Rotated}
use dating_coach.Auth.Reuse.{reuse_ends_sessions}
use dating_coach.Auth.Guesses.{Guess, submit}
use dating_coach.Auth.Strikes.{wrong_codes_use_up}
use dating_coach.Auth.Aftermath.{deleted_account_gets_no_session}
use dating_coach.Auth.Credentials.{MaySignIn, succeeds, sign_in_iff}
use dating_coach.Account.Queue.{publish_job, Broker}
use dating_coach.Account.Worker.{WorkerEnv}
use dating_coach.Account.Relay.{RelayEnv, drain}
use dating_coach.Account.Tracking.{IsTracked}
use dating_coach.Account.Pipeline.{Reach, here, next, accepts, relays, Reach-IsTracked}
use dating_coach.Account.Completion.{parked}
use dating_coach.Account.Fulfilled.{pass, deletions_are_carried_out}
use dating_coach.Notify.Backoff.{
  retry_delay, retry_delay_lem, min_retry_delay, max_retry_delay, min_of, max_attempts,
}
use dating_coach.Notify.Relay
use dating_coach.Notify.Due.{drain_leaves_none_due}

abbrev pub service : AuthService
service = record {
  hash_password = λ p. some p;
  matches = λ hash p. text_eq hash p;
  hash_token = λ t. t;
  issue = λ c. some "jwt";
  parse = λ now t. none;
  valid_email = λ e. true;
  trim = λ s. s;
  lower = λ s. s;
  local_part = λ s. s;
  verify = none;
  session_ttl = 15 * minute;
  verify_ttl = hour;
  refresh_ttl = 24 * hour;
  has_denylist = true;
  denylist_ttl = 20 * minute;
}

abbrev at : Time → String → AuthEnv
at now token = record {
  now = now;
  db_now = now;
  random_token = some token;
  random_code = some "123456";
  user_id = 9;
  token_id = 8;
  family_id = 7;
  answers = λ r. true;
  commits = true;
  revokes_tokens = true;
  marks_published = true;
  clean_up = true;
}

abbrev account : ℕ → String → Bool → User
account i email verified = record {
  id = i;
  email = email;
  password_hash = "secret";
  display_name = "Ada";
  role = user_role;
  email_verified = verified;
  created_at = 0;
  updated_at = 0;
  deleted_at = none;
  dating_styles = [];
  phases_strong = [];
  phases_working_on = [];
  dating_preferences = "";
}

abbrev first_token : RefreshToken
first_token = record {
  id = 1;
  user_id = 1;
  token_hash = "one";
  issued_at = 0;
  expires_at = hour;
  used_at = none;
  family_id = 5;
}

abbrev queues : Broker
queues = record { work = []; retry = []; dead = [] }

abbrev start : AuthState
start = record {
  users = account 1 "ada@example.com" true ∷ account 2 "bob@example.com" false ∷ [];
  tokens = first_token ∷ [];
  deletions = [];
  codes = λ i. store_entry 10 verification_code_ttl "424242";
  revoked = [];
  broker = queues;
  mails = [];
}

abbrev renewed : Session
renewed = record {
  token = "jwt";
  refresh_token = "two";
  expires_at = 20 + 15 * minute;
  user = profile_of (account 1 "ada@example.com" true);
}

abbrev after_refresh : AuthState
after_refresh = (refresh service (at 20 "two") "one" start).1

refreshed : refresh service (at 20 "two") "one" start ≡ (done renewed, after_refresh)
unfolding refresh exchange rotate open_session issue_refresh_token refresh_row claims_for
    get_refresh_token use_refresh_token create_refresh_token get_user_by_id spent_token
refreshed = refl

refresh-Rotated_example : Rotated service (at 20 "two") "one" start renewed after_refresh
refresh-Rotated_example =
    refresh-Rotated service (at 20 "two") "one" start after_refresh renewed (tt, tt) refreshed

-- The new token has been exchanged in its turn.
abbrev after_second : AuthState
after_second = (refresh service (at 25 "three") "two" after_refresh).1

still_spent :
    get_refresh_token "one" after_second.tokens ≡ get_refresh_token "one" after_refresh.tokens
unfolding refresh exchange rotate open_session issue_refresh_token refresh_row claims_for
    get_refresh_token use_refresh_token create_refresh_token spent_token get_user_by_id profile_of
still_spent = refl

reuse_ends_sessions_example :
    ((refresh service (at 30 "four") "one" after_second).0 ≡ failed invalid_refresh_token)
    × All
        (λ (t : RefreshToken). t.user_id ≢ renewed.user.id)
        (refresh service (at 30 "four") "one" after_second).1.tokens
reuse_ends_sessions_example =
    reuse_ends_sessions service (at 20 "two") (at 30 "four") "one" start after_refresh after_second
      renewed (tt, tt) refreshed still_spent

abbrev guess : Time → String → Guess
guess t code = record { env = at t "two"; code = code; bearer = "" }

abbrev wrong : List Guess
wrong = guess 11 "000000" ∷ guess 12 "000001" ∷ guess 13 "000002" ∷ []

bob_is_found :
    get_user_by_email "bob@example.com" start.users ≡ some (account 2 "bob@example.com" false)
unfolding get_user_by_email
bob_is_found = refl

-- Even the right code comes too late.
wrong_codes_use_up_example :
    (verify_email service
      (at 14 "two")
      "bob@example.com"
      "424242"
      ""
      (submit service "bob@example.com" wrong start)).0
    ≡ failed invalid_code
wrong_codes_use_up_example =
    wrong_codes_use_up service "bob@example.com" "424242" (account 2 "bob@example.com" false) 10
      wrong (guess 14 "424242") start bob_is_found refl refl
      ((refl, (refl, refl, refl)), ((refl, (refl, refl, refl)), ((refl, (refl, refl, refl)), tt)))
      (omega arith) (omega arith, (omega arith, (omega arith, tt))) (omega arith) (refl, refl, refl)

abbrev requests : List (AuthEnv × Request)
requests = (at 30 "two", refreshes "one") ∷ (at 31 "two", resends "bob@example.com") ∷ []

abbrev after_deletion : AuthState
after_deletion = (delete_account service (at 20 "two") 2 start).1

abbrev ada_session : Session
ada_session = record {
  token = "jwt";
  refresh_token = "three";
  expires_at = 40 + 15 * minute;
  user = profile_of (account 1 "ada@example.com" true);
}

abbrev last_request : Request
last_request = signs_in "ada@example.com" "secret"

abbrev last_state : AuthState
last_state =
    (serve service (at 40 "three") last_request (serve_all service requests after_deletion)).1

served :
    serve service (at 40 "three") last_request (serve_all service requests after_deletion)
    ≡ (done (some ada_session), last_state)
unfolding serve serve_all sign_in resend_verification send_code refresh exchange rotate open_session
    issue_refresh_token refresh_row claims_for get_refresh_token use_refresh_token
    create_refresh_token get_user_by_id get_user_by_email spent_token delete_account deny
    queue_deletion publish_job mark_deletion_published request_user_deletion user_row_exists
    record_deletion marked_user revoke_user_refresh_tokens
served = refl

-- Another account's sign-in is answered.
deleted_account_gets_no_session_example : ada_session.user.id ≢ 2
deleted_account_gets_no_session_example =
    deleted_account_gets_no_session 2 service (at 20 "two") (at 40 "three") requests last_request
      start last_state ada_session (ground arith, (ground arith, tt)) (ground arith) served

sign_in_iff_example :
    (succeeds (sign_in service (at 20 "two") "ada@example.com" "secret" start) ≡ true)
    ↔ MaySignIn service (at 20 "two") "ada@example.com" "secret" start
sign_in_iff_example = sign_in_iff service (at 20 "two") "ada@example.com" "secret" start

abbrev relay : RelayEnv
relay = record { now = 25; publishes = λ i. true; marks = λ i. true }

abbrev worker : WorkerEnv
worker = record {
  revocation = hour;
  revokes = true;
  looks_up = true;
  deletes = true;
  finishes = true;
  republishes = true;
  acks = true;
}

start-IsTracked : IsTracked start
start-IsTracked = (tt, (refl, (refl, tt)))

history : Reach start (drain relay after_deletion)
history = next (next here (accepts service (at 20 "two") 2)) (relays relay)

Reach-IsTracked_example : IsTracked (drain relay after_deletion)
Reach-IsTracked_example = Reach-IsTracked start (drain relay after_deletion) history start-IsTracked

-- One account is marked, its row waits in the outbox.
abbrev waiting : AuthState
waiting = record start {
  users =
      account 1 "ada@example.com" true
      ∷ record (account 2 "bob@example.com" false) { deleted_at = some 20 }
      ∷ [];
  deletions = record { user_id = 2; requested_at = 20; published_at = none } ∷ [];
}

deletions_are_carried_out_example :
    All
      (λ (u : User). (is_live u.deleted_at || parked u.id queues) ≡ true)
      (pass relay worker waiting).users
deletions_are_carried_out_example =
    deletions_are_carried_out relay worker waiting ((refl, tt), (refl, (refl, tt)))
      (record { publishes = λ i. refl; marks = λ i. refl })
      (record { revokes = refl; deletes = refl; finishes = refl; republishes = refl; acks = refl })
      (omega arith)

retry_delay_lem_example : retry_delay 3 ≡ min_of (min_retry_delay * 2 ^ 3) max_retry_delay
retry_delay_lem_example = retry_delay_lem 3

abbrev email : EmailRow
email = record {
  id = 1;
  to_email = "ada@example.com";
  subject = "Hello";
  body = "";
  ics = none;
  attempts = 3;
  last_error = "";
  next_attempt_at = 5;
  created_at = 0;
  sent_at = none;
}

-- The mail server refuses the one email that is due.
abbrev refusing : Relay.MailEnv
refusing = record { now = 10; refuses = λ row. some "421"; records = λ row. true }

due_emails : length (select (due_email max_attempts 10) (email ∷ [])) ≤ Relay.relay_batch
unfolding due_email
due_emails = omega arith

drain_leaves_none_due_example :
    All (λ e. due_email max_attempts 10 e ≡ false) (Relay.drain refusing (email ∷ []))
drain_leaves_none_due_example = drain_leaves_none_due refusing (email ∷ []) (λ row. refl) due_emails
