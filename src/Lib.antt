-- ===== src/Lib.antt =====
-- The backend of a dating-coach application: clients ask for sessions with a coach, the coach answers,
-- either side moves or cancels, a payment provider holds and charges the client's card, and a worker
-- clears up what is left unanswered or unpaid. Accounts sign up, verify their address, sign in and
-- renew their sessions; a deleted account is marked at once and removed by a queue's worker; emails
-- wait in an outbox for their relay.
--
-- Store models backend/internal/store/db and the constraints of backend/migrations. `Store.Rows` holds
-- the structs of models.go; `Store.Table` is the table coaching_sessions, found by primary key;
-- `Store.Inserts`, `Store.Updates`, `Store.Payments` and `Store.Sweeps` hold one function per SQL
-- statement of coaching.sql.go (confirm_session is ConfirmSession), each a guard (the WHERE clause), a
-- change of the row (the SET clause) and, where the exclusion constraint coaching_sessions_no_overlap
-- can refuse the write, a result that says so.
--
-- `Store.Reviews` and `Store.Coaches` are the tables coach_reviews and coaches with their statements
-- in coaching.sql.go; `Store.Users`, `Store.Tokens`, `Store.Deletions` and `Store.Outbox` hold the
-- statements of users.sql.go, refresh_tokens.sql.go, account_deletions.sql.go and email_outbox.sql.go.
--
-- Coaching models backend/internal/coaching. `Coaching.World` is what a request runs in: the database,
-- the calls made to the payment provider with their answers, the clock readings of the request, and
-- begin, commit and rollback. `Coaching.Clock` is respondDeadline and priceCents, `Coaching.Mail` the
-- emails of emails.go and the invites of ics.go as outbox rows, `Coaching.Slots` SetAvailability and
-- assertBookable, `Coaching.Offers` OpenSlots, `Coaching.Booking` BookSession and bookPaid,
-- `Coaching.Answers` RespondWithToken and RespondAsCoach, `Coaching.Changes` SetStatus, Reschedule,
-- SetNotes and SetMeetingURL, `Coaching.Payment` ApplyPaymentEvent, `Coaching.Sweep` ExpirePending and
-- SweepPayments, `Coaching.Reviews` CreateReview, and `Coaching.Profiles` UpsertProfile and
-- SetCoachApproval. Names are the source's in snake case.
--
-- Auth models backend/internal/auth: `Auth.World` is the state and the environment of a request,
-- `Auth.Codes` the verification codes in Redis (verifycache.go), `Auth.Sessions` SignIn,
-- SignInWithGoogle and Refresh, `Auth.Verification` VerifyEmail and ResendVerification,
-- `Auth.Accounts` SignUp and DeleteAccount, `Auth.Requests` sequences of them, `Auth.Profiles`
-- UpdateDatingProfile and Profile, `Auth.Gate` the rate limiter and the middleware (ratelimit.go,
-- middleware.go), `Auth.Routes` the private group of newRouter in backend/cmd/api/main.go. Account
-- models backend/internal/account on the same state: `Account.Queue` the work, retry and dead-letter
-- queues, `Account.Worker` Handle and one round of Consume, `Account.Relay` Drain. Notify models
-- outbox.go of backend/internal/notify: `Notify.Backoff` is retryDelay and `Notify.Relay` is Drain.
--
-- The proofs about coaching stand below the code they are about, and in Lifecycle (what one row may
-- look like), Calendar (rows that do not overlap), Effects (what a handler leaves alone), Sound (both,
-- through every handler), History (sequences of requests), Atomic (requests that fail), Access (who
-- may change a session) and Expiry (the loop of ExpirePending); those about accounts in Auth.Rotation
-- and Reuse (an exchanged token), Guesses and Strikes (wrong codes), Credentials (who may sign in),
-- Routes (who gets past the middleware), Throttle (how many requests are allowed), Choices (the
-- vocabularies of a profile), Deleted, Spared, Farewell and Aftermath (after DELETE /me), in
-- Account.Tracking, Deliveries, Rounds, Requested and Pipeline (what becomes of a recorded deletion),
-- Completion, Drained and Fulfilled (a healthy pass), and in Notify.Due. `Tests`, `SlotTests`,
-- `AccountTests`, `GateTests` and `ReviewTests` run the code on small databases.
--
-- A request is one step on the database, except that bookPaid is two (other requests run while the
-- provider opens the checkout), and that a session which was read before a transaction is an argument
-- of the handler, so that it may be stale in any way. The payment provider, SHA-256 and time zones are
-- parameters: `Provider` answers as it likes, depending on every call before; `hash_token` and `Zone`
-- are any functions.
--
-- An identifier is a natural number, since the code only compares uuids; an instant is a number of
-- nanoseconds from an origin before every instant in use; the rounding of stored times to microseconds
-- is left out. Texts that the code parses (uuids, times, URLs) enter parsed, none for a refused one.
-- int32 columns do not wrap around: durations and amounts are checked against their bounds before they
-- are stored, and calendar_sequence grows by one per change of a session. A failure of the database
-- itself is modelled at the commit only. SetStatus calls itself and ExpirePending loops; both run on
-- fuel: one round of SetStatus is enough, and for ExpirePending one batch more than there are overdue
-- requests that it can lock. OpenSlots runs its days and minutes on fuel: 34 days, since its range is
-- at most 30 times 24 hours and the clocks of two days are at least 22 hours apart, and as many starts
-- in a window as its end has minutes.
--
-- In the services of accounts bcrypt, SHA-256, the signing of tokens, Google's verification, net/mail
-- and the trimming and lowering of texts are parameters of `AuthService`; clocks, random values, fresh
-- keys and which calls of Redis and of the broker answer are the environment of each request. A Redis
-- value is absent once its expiry has come. Rows of other tables that the database removes with a user
-- are left out, and so is what only logs.
--
-- A key of the rate limiter in Redis is absent once its expiry has come; the token and the address of
-- the client enter the middleware parsed, and a token's scope is one of the two, or none.
--
-- The wording of emails, JSON, HTTP, chat, conversation analysis, lists of coaches, lists and
-- summaries of reviews, notifications, listing queries, configuration and connections are not
-- modelled; nor are the mobile application and the analyzer in Python, which the backend only serves
-- and calls.
pub mod Base
pub mod Store
pub mod Coaching
pub mod Account
pub mod Auth
pub mod Notify
pub mod Tests
pub mod AccountTests
pub mod SlotTests
pub mod GateTests
pub mod ReviewTests
