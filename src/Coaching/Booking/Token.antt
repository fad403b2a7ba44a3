-- ===== src/Coaching/Booking/Token.antt =====
-- The token of a request: BookSession emails it, RespondWithToken takes it back
-- (backend/internal/coaching/service.go).
use dating_coach.Base.{
  ◌≡◌, refl, arith, false, some, inl, inr, Bool-cases, Option-cases, String, text_eq, text_eq_refl,
  subst, ◌++◌, [], ◌∷◌, none,
}
use dating_coach.Store.Rows.{CoachingSession, CoachRow, UserRow}
use dating_coach.Store.Table.{Rows, Write, written, slot_conflict, rejected, no_row, find_row}
use dating_coach.Store.Inserts.{insert_row, create_coaching_session, created_row}
use dating_coach.Coaching.World.{
  World, Env, Service, Error, Result, ok, err, after, pure, settle, set_sessions, write_result,
  ◌>>◌, OutboxMail, coach_request, client_requested, find_coach, find_user,
}
use dating_coach.Coaching.Mail.{
  invite, enqueue, get_session_parties, mail_coach_request, mail_client_requested,
}
use dating_coach.Coaching.Effects.{notify_requested-SameSessions}
use dating_coach.Coaching.Answers
use dating_coach.Coaching.Booking

-- A session is stored under the hash of a token.
abbrev Stored : String → CoachingSession → World → Type 0
Stored hash s w = (find_row s.id w.db.sessions ≡ some s) × (s.confirmation_token ≡ some hash)

-- The email that takes a token to the coach of a session.
abbrev pub coach_mail : CoachRow → CoachingSession → String → OutboxMail
coach_mail coach s token = record {
  to_email = coach.email;
  kind = coach_request false token;
  session_id = s.id;
  ics = some (invite s);
}

abbrev pub client_mail : UserRow → CoachingSession → OutboxMail
client_mail user s = record {
  to_email = user.email;
  kind = client_requested;
  session_id = s.id;
  ics = none;
}

-- The coach's email with the token, and then the client's without it, are put in the outbox.
pub record Emailed (token : String) (s : CoachingSession) (w w' : World) : Type 0 where
  pub coach : CoachRow
  pub user : UserRow
  pub coach_found : find_coach s.coach_id w.db.coaches ≡ some coach
  pub user_found : find_user s.user_id w.db.users ≡ some user
  pub sent :
      w'.db.outbox ≡ (w.db.outbox ++ (coach_mail coach s token ∷ [])) ++ (client_mail user s ∷ [])

abbrev Ensured : (CoachingSession → World → Type 0) → Result CoachingSession × World → Type 0
Ensured P (ok s, w) = P s w
Ensured P (err e, w) = Unit {0}

notified-Emailed :
    (token : String) (s : CoachingSession) (w : World) (rows : Rows)
    → find_row s.id rows ≡ some s
    → Ensured
        (λ t. Emailed token t w)
        (after (Booking.notify_requested s.id token (set_sessions w rows)) (λ _. pure s))
unfolding Booking.notify_requested get_session_parties mail_coach_request mail_client_requested
    enqueue
notified-Emailed token s w rows f = elim (Option-cases (find_user s.user_id w.db.users)) [
  | inl n ↦ simp (f, n) tt
  | inr (user, n) ↦ elim (Option-cases (find_coach s.coach_id w.db.coaches)) [
    | inl m ↦ simp (f, n, m) tt
    | inr (coach, m) ↦
        simp (f, n, m)
          (record { coach = coach; user = user; coach_found = m; user_found = n; sent = refl })
  ]
]

notified-Stored :
    (hash : String) (s : CoachingSession) (v : World) (r : Result (Unit {0}) × World)
    → r.1.db.sessions ≡ v.db.sessions
    → Stored hash s v
    → Ensured (Stored hash) (after r (λ _. pure s))
notified-Stored hash s v (ok a, v') e (f, t) = (rw e f, t)
notified-Stored hash s v (err x, v') e k = tt

-- What a booking leaves.
abbrev Requested : String → String → World → CoachingSession → World → Type 0
Requested hash token w s w' = Stored hash s w' × Emailed token s w w'

both :
    (P Q : CoachingSession → World → Type 0) (r : Result CoachingSession × World)
    → Ensured P r
    → Ensured Q r
    → Ensured (λ s w. P s w × Q s w) r
both P Q (ok s, w) h k = (h, k)
both P Q (err e, w) h k = tt

result-Requested :
    (hash token : String) (e : Error) (w : World) (o : Write)
    → ((s : CoachingSession) (rows : Rows)
        → o ≡ written s rows
        → Stored hash s (set_sessions w rows))
    → Ensured
        (Requested hash token w)
        (after (write_result e w o) (λ s. Booking.notify_requested s.id token >> pure s))
result-Requested hash token e w (written s rows) k =
    let v = set_sessions w rows in
    let h = k s rows refl in
    both (Stored hash) (λ t. Emailed token t w)
      (after (Booking.notify_requested s.id token v) (λ _. pure s))
      (notified-Stored hash s v (Booking.notify_requested s.id token v)
        (notify_requested-SameSessions s.id token v) h)
      (notified-Emailed token s w rows h.0)
result-Requested hash token e w slot_conflict k = tt
result-Requested hash token e w rejected k = tt
result-Requested hash token e w no_row k = tt

store_request-Requested :
    (svc : Service) (env : Env) (r : Booking.Request) (token : String) (w : World)
    → Ensured (Requested (svc.hash_token token) token w) (Booking.store_request svc env r token w)
unfolding Booking.store_request create_coaching_session insert_row created_row find_row
    Booking.request_params
store_request-Requested svc env r token w =
    result-Requested (svc.hash_token token) token _ w
      (create_coaching_session env.new_id env.db_now (Booking.request_params svc env r token)
        w.db.sessions)
      (λ s rows h. (ground (arith, h), ground (arith, h)))

settle-Ensured :
    (P : CoachingSession → World → Type 0) (env : Env) (w : World)
    (r : Result CoachingSession × World)
    → Ensured P r
    → Ensured P (settle env w r)
settle-Ensured P env w (ok a, w') h = elim (Bool-cases env.commits) [
  | inl c ↦ simp c h
  | inr c ↦ simp c tt
]
settle-Ensured P env w (err e, w') h = tt

book_free-Requested :
    (svc : Service) (env : Env) (r : Booking.Request) (token : String) (w : World)
    → env.random_token ≡ some token
    → Ensured (Requested (svc.hash_token token) token w) (Booking.book_free svc env r w)
unfolding Booking.book_free Booking.store_request Booking.request_params
book_free-Requested svc env r token w d = rw d (
    settle-Ensured (Requested (svc.hash_token token) token w) env w
      (Booking.store_request svc env r token w) (store_request-Requested svc env r token w))

-- A free booking puts the token drawn for it in the email to the coach, then a second email without a
-- token to the client, and nothing else in the outbox; and that token opens the booking: an answer
-- given with it is an answer on the stored session, as the booking returned it. The token is not the
-- empty text.
pub token_opens_booking :
    (svc : Service) (env env' : Env) (r : Booking.Request) (token : String) (s : CoachingSession)
    (action : Answers.Action) (w w' : World)
    → env.random_token ≡ some token
    → text_eq token "" ≡ false
    → Booking.book_free svc env r w ≡ (ok s, w')
    → Emailed token s w w'
      × (Answers.respond_with_token svc env' s.id token action w'
          ≡ Answers.respond svc env' s action w')
unfolding Answers.respond_with_token Answers.find_by_token find_row Answers.respond
token_opens_booking svc env env' r token s action w w' d n h =
    let ((f, t), m) =
      subst (Ensured (Requested (svc.hash_token token) token w)) h
        (book_free-Requested svc env r token w d) in
    (m, rw (n, f, t, text_eq_refl (svc.hash_token token)) refl)
