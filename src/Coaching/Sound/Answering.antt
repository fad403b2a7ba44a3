-- ===== src/Coaching/Sound/Answering.antt =====
-- The invariant through the handlers of Answers, on any snapshot of the session.
use dating_coach.Base.{
  refl, ℕ, ◌≡◌, ◌≢◌, arith, true, Option, none, some, Bool-cases, inl, inr, subst, sym,
}
use dating_coach.Store.Status.{payment_eq→eq, payment_eq, authorized, paid}
use dating_coach.Store.Rows.{CoachingSession, Time}
use dating_coach.Store.Table.{
  update_one_row, Rows, find_row, put_row, update_one, find_row-id, All-find_row,
  find_row-put_row_self, put_row-put_row,
}
use dating_coach.Store.Updates.{
  answerable, confirmed_row, declined_row, confirm_session, decline_session,
}
use dating_coach.Store.Payments.{paid_row, mark_session_captured}
use dating_coach.Coaching.World.{
  one_of, pure, ◌>>◌, ◌>>=◌, World, Tx, after, Env, Service, set_sessions, Error,
}
use dating_coach.Coaching.Answers.{
  is_answer, Action, confirm, decline, other_action, capture, answer_statement, settle_payment,
  notify_answer, answer, respond,
}
use dating_coach.Coaching.Effects.{notify_answer-SameSessions}
use dating_coach.Coaching.Lifecycle.{IsConsistent}
use dating_coach.Coaching.Lifecycle.Statements.{
  confirmed_row-IsConsistent, captured_row-IsConsistent, declined_row-IsConsistent,
}
use dating_coach.Coaching.Calendar.{Shrinks}
use dating_coach.Coaching.Sound.{IsSound, put_row-IsSound}
use dating_coach.Coaching.Sound.Handlers.{
  WorldSound, Lands, settle-WorldSound, after-Lands, notified-Lands,
}

confirmed-Shrinks :
    (now : Time) (r : CoachingSession) → answerable now r ≡ true → Shrinks r (confirmed_row now r)
unfolding answerable confirmed_row
confirmed-Shrinks now r g = ground arith

captured-Shrinks :
    (now : Time) (r : CoachingSession)
    → answerable now r ≡ true
    → Shrinks r (paid_row paid now (confirmed_row now r))
unfolding answerable confirmed_row paid_row
captured-Shrinks now r g = ground arith

declined-Shrinks :
    (now : Time) (r : CoachingSession) → answerable now r ≡ true → Shrinks r (declined_row now r)
unfolding answerable declined_row
declined-Shrinks now r g = ground arith

-- Capturing a confirmed row that is authorised writes it as paid.
capture_rows :
    (i : ℕ) (now : Time) (r : CoachingSession) (rows : Rows)
    → find_row i rows ≡ some r
    → r.payment_status ≡ authorized
    → (mark_session_captured i now (put_row i (confirmed_row now r) rows)).1
      ≡ put_row i (paid_row paid now (confirmed_row now r)) rows
unfolding mark_session_captured update_one confirmed_row paid_row
capture_rows i now r rows e a =
    let key = find_row-id i r rows e in
    ground (
      arith,
      find_row-put_row_self i (confirmed_row now r) r rows key e,
      put_row-put_row i (paid_row paid now (confirmed_row now r)) (confirmed_row now r) rows key,
    )

capture-Lands :
    (svc : Service) (env : Env) (s : CoachingSession) (w : World)
    → IsSound (mark_session_captured s.id env.db_now w.db.sessions).1
    → Lands (capture svc env s w)
unfolding capture
capture-Lands svc env s w v = ground arith

-- The payment step after a confirmation: a held card is charged, any other payment is left alone.
settle_payment-Lands :
    (svc : Service) (env : Env) (w : World) (s : CoachingSession)
    → (s.payment_status ≡ authorized
        → IsSound (mark_session_captured s.id env.db_now w.db.sessions).1)
    → (s.payment_status ≢ authorized → WorldSound w)
    → Lands (settle_payment svc env confirm s w)
unfolding settle_payment
settle_payment-Lands svc env w s held free =
    elim (Bool-cases (payment_eq s.payment_status authorized)) [
      | inl h ↦ rw h (
          after-Lands (capture svc env s w) _
            (capture-Lands svc env s w (held (payment_eq→eq _ _ h))) (λ _ w' v. v))
      | inr f ↦ rw f (free (ground (arith, f)))
    ]

confirm_rows-IsSound :
    (i : ℕ) (now : Time) (r : CoachingSession) (rows : Rows)
    → find_row i rows ≡ some r
    → answerable now r ≡ true
    → IsSound rows
    → ((confirmed_row now r).payment_status ≡ authorized
        → IsSound
            (mark_session_captured
              (confirmed_row now r).id
              now
              (put_row i (confirmed_row now r) rows)).1)
      × ((confirmed_row now r).payment_status ≢ authorized
          → IsSound (put_row i (confirmed_row now r) rows))
unfolding confirmed_row
confirm_rows-IsSound i now r rows e g v =
    let c : IsConsistent r = All-find_row IsConsistent i r rows v.consistent e in
    (
      λ a.
          subst
            (λ k. IsSound (mark_session_captured k now (put_row i (confirmed_row now r) rows)).1)
            (sym (find_row-id i r rows e))
            (rw (capture_rows i now r rows e a) (
              put_row-IsSound i r _ rows e (captured_row-IsConsistent now c g a)
                (captured-Shrinks now r g) v)),
      λ n.
          put_row-IsSound i r _ rows e (confirmed_row-IsConsistent now c g n)
            (confirmed-Shrinks now r g) v,
    )

-- What is left of `answer` once the row is written.
abbrev finish_answer : Service → Env → ℕ → Action → CoachingSession → Tx CoachingSession
finish_answer svc env i action updated =
    settle_payment svc env action updated >>= (λ settled. notify_answer action i >> pure settled)

finish_answer-Lands :
    (svc : Service) (env : Env) (i : ℕ) (action : Action) (s : CoachingSession) (w : World)
    → Lands (settle_payment svc env action s w)
    → Lands (finish_answer svc env i action s w)
finish_answer-Lands svc env i action s w l =
    after-Lands (settle_payment svc env action s w) _ l (λ a w' v.
      notified-Lands a (notify_answer action i w') w' (notify_answer-SameSessions action i w') v)

-- A `:one` statement that returned a row, and what follows it.
pub one_of-Lands :
    {A : Type 0} (e : Error) (w : World) (o : Option CoachingSession × Rows)
    (f : CoachingSession → Tx A)
    → ((r : CoachingSession) → o.0 ≡ some r → Lands (f r (set_sessions w o.1)))
    → Lands (after (one_of e w o) f)
one_of-Lands e w (none, rows) f k = tt
one_of-Lands e w (some r, rows) f k = k r refl

confirm-Lands :
    (svc : Service) (env : Env) (i : ℕ) (w : World) (s r : CoachingSession)
    → WorldSound w
    → find_row i w.db.sessions ≡ some r
    → answerable env.db_now r ≡ true
    → s ≡ confirmed_row env.db_now r
    → Lands (
        finish_answer svc env i confirm s
          (set_sessions w (put_row i (confirmed_row env.db_now r) w.db.sessions)))
confirm-Lands svc env i w s r v e g q =
    let parts = confirm_rows-IsSound i env.db_now r w.db.sessions e g v in
    rw q (
      finish_answer-Lands svc env i confirm (confirmed_row env.db_now r)
        (set_sessions w (put_row i (confirmed_row env.db_now r) w.db.sessions))
        (settle_payment-Lands svc env
          (set_sessions w (put_row i (confirmed_row env.db_now r) w.db.sessions))
          (confirmed_row env.db_now r) parts.0 parts.1))

decline-Lands :
    (svc : Service) (env : Env) (i : ℕ) (w : World) (s r : CoachingSession)
    → WorldSound w
    → find_row i w.db.sessions ≡ some r
    → answerable env.db_now r ≡ true
    → Lands (
        finish_answer svc env i decline s
          (set_sessions w (put_row i (declined_row env.db_now r) w.db.sessions)))
unfolding settle_payment
decline-Lands svc env i w s r v e g =
    finish_answer-Lands svc env i decline s
      (set_sessions w (put_row i (declined_row env.db_now r) w.db.sessions))
      (put_row-IsSound i r _ w.db.sessions e
        (declined_row-IsConsistent env.db_now
          (All-find_row IsConsistent i r w.db.sessions v.consistent e) g)
        (declined-Shrinks env.db_now r g) v)

pub answer-Lands :
    (svc : Service) (env : Env) (i : ℕ) (action : Action) (w : World)
    → is_answer action ≡ true
    → WorldSound w
    → Lands (answer svc env i action w)
unfolding answer answer_statement confirm_session decline_session
answer-Lands svc env i confirm w k v =
    one_of-Lands _ w (update_one i (answerable env.db_now) (confirmed_row env.db_now) w.db.sessions)
      _
      (λ s h.
        let (r, e, g, q, p) = update_one_row i _ _ w.db.sessions s h in
        rw p (confirm-Lands svc env i w s r v e g q))
answer-Lands svc env i decline w k v =
    one_of-Lands _ w (update_one i (answerable env.db_now) (declined_row env.db_now) w.db.sessions)
      _
      (λ s h.
        let (r, e, g, q, p) = update_one_row i _ _ w.db.sessions s h in
        rw p (decline-Lands svc env i w s r v e g))
answer-Lands svc env i other_action w k v = cc

-- Answering a request keeps the invariant, also on a stale snapshot.
pub respond-WorldSound :
    (svc : Service) (env : Env) (session : CoachingSession) (action : Action) (w : World)
    → WorldSound w
    → WorldSound (respond svc env session action w).1
unfolding respond
respond-WorldSound svc env session action w v = ground (
  arith,
  λ (k : is_answer action ≡ true).
      settle-WorldSound env w (answer svc env session.id action w) v
        (answer-Lands svc env session.id action w k v),
)
