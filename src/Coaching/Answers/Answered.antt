-- ===== src/Coaching/Answers/Answered.antt =====
-- A session that was answered stays answered through further answers (respond of
-- backend/internal/coaching/service.go).
use dating_coach.Coaching.Answers.{
  expired_request, before, invalid_input, other_action, pure, decline, confirm,
}
use dating_coach.Base.{
  not, [], ◌∷◌, Bool-cases, List, ◌∙◌, ℕ, ◌≡◌, refl, arith, true, false, some, inl, inr,
}
use dating_coach.Store.Status.{pending, authorized, paid, status_eq}
use dating_coach.Store.Rows.{CoachingSession, Time}
use dating_coach.Store.Table.{
  find_row, put_row, update_one, update_one_row, find_row-update_one, find_row-put_row_self,
  find_row-id,
}
use dating_coach.Store.Updates.{
  answerable, confirmed_row, confirm_session, declined_row, decline_session,
}
use dating_coach.Store.Payments.{mark_session_captured, paid_row, pays}
use dating_coach.Coaching.World.{
  settle, ◌>>◌, after, World, Env, Service, Result, ok, err, set_sessions,
}
use dating_coach.Coaching.Effects.{
  guard_then, Post, after-Post, one_of-Post, settle-Post, notify_answer-SameSessions,
}
use dating_coach.Coaching.Answers

-- The session under a key is no longer waiting for an answer.
abbrev pub Answered : ℕ → World → Type 0
Answered i w =
    (t : CoachingSession) × (find_row i w.db.sessions ≡ some t)
    × (status_eq t.status pending ≡ false)

charged-id : (now : Time) (r : CoachingSession) → (paid_row paid now r).id ≡ r.id
unfolding paid_row
charged-id now r = refl

charged-status : (now : Time) (r : CoachingSession) → (paid_row paid now r).status ≡ r.status
unfolding paid_row
charged-status now r = refl

-- Marking a payment as captured answers nothing anew.
captured-Answered :
    (i k : ℕ) (now : Time) (w : World)
    → Answered i w
    → Answered i (set_sessions w (mark_session_captured k now w.db.sessions).1)
unfolding mark_session_captured
captured-Answered i k now w (t, f, n) =
    elim (find_row-update_one i k (pays authorized) (paid_row paid now) w.db.sessions t
      (charged-id now) f) [
        | inl e ↦ (t, e, n)
        | inr (e, g) ↦ (paid_row paid now t, e, rw (charged-status now t) n)
      ]

settle_payment-Answered :
    (svc : Service) (env : Env) (action : Answers.Action) (i : ℕ) (s : CoachingSession) (w : World)
    → Answered i w
    → Post (Answered i) (Answers.settle_payment svc env action s w)
unfolding Answers.settle_payment Answers.capture
settle_payment-Answered svc env action i s w a =
    ground (arith, captured-Answered i s.id env.db_now w a)

-- A row that an answer wrote is found, and is answered.
put_row-Answered :
    (i : ℕ) (w : World) (r t : CoachingSession)
    → find_row i w.db.sessions ≡ some r
    → t.id ≡ r.id
    → status_eq t.status pending ≡ false
    → Answered i (set_sessions w (put_row i t w.db.sessions))
put_row-Answered i w r t e k n =
    (t, find_row-put_row_self i t r w.db.sessions (k ∙ find_row-id i r w.db.sessions e) e, n)

notified-Answered :
    {A : Type 0} (i : ℕ) (x : A) (v : World) (r : Result (Unit {0}) × World)
    → r.1.db.sessions ≡ v.db.sessions
    → Answered i v
    → Post (Answered i) (after r (λ _. pure x))
notified-Answered i x v (ok u, v') e (t, f, n) = (t, rw e f, n)
notified-Answered i x v (err _, v') e a = tt

finish-Answered :
    (svc : Service) (env : Env) (action : Answers.Action) (i k : ℕ) (s : CoachingSession)
    (w : World)
    → Answered i w
    → Post (Answered i) (
        after
          (Answers.settle_payment svc env action s w)
          (λ settled. Answers.notify_answer action k >> pure settled))
finish-Answered svc env action i k s w a =
    after-Post (Answered i) (Answered i) (Answers.settle_payment svc env action s w) _
      (settle_payment-Answered svc env action i s w a)
      (λ x v (t, f, n).
        notified-Answered i x v (Answers.notify_answer action k v)
          (notify_answer-SameSessions action k v) (t, f, n))

answer-Answered :
    (svc : Service) (env : Env) (i : ℕ) (action : Answers.Action) (w : World)
    → Answers.is_answer action ≡ true
    → Post (Answered i) (Answers.answer svc env i action w)
unfolding Answers.answer Answers.answer_statement confirm_session decline_session confirmed_row
    declined_row
answer-Answered svc env i confirm w k =
    one_of-Post (Answered i) _ w
      (update_one i (answerable env.db_now) (confirmed_row env.db_now) w.db.sessions) _
      (λ s h.
        let (r, e, g, q, p) = update_one_row i _ _ w.db.sessions s h in
        rw p (
          finish-Answered svc env confirm i i s _
            (put_row-Answered i w r (confirmed_row env.db_now r) e refl refl)))
answer-Answered svc env i decline w k =
    one_of-Post (Answered i) _ w
      (update_one i (answerable env.db_now) (declined_row env.db_now) w.db.sessions) _
      (λ s h.
        let (r, e, g, q, p) = update_one_row i _ _ w.db.sessions s h in
        rw p (
          finish-Answered svc env decline i i s _
            (put_row-Answered i w r (declined_row env.db_now r) e refl refl)))
answer-Answered svc env i other_action w k = cc

pub respond-Answered :
    (svc : Service) (env : Env) (s : CoachingSession) (action : Answers.Action) (w : World)
    → Post (Answered s.id) (Answers.respond svc env s action w)
unfolding Answers.respond
respond-Answered svc env s action w = ground (
  arith,
  λ (k : Answers.is_answer action ≡ true).
      settle-Post (Answered s.id) env w (Answers.answer svc env s.id action w)
        (answer-Answered svc env s.id action w k),
)

-- One attempt to answer a session, on the snapshot that it read.
pub record Attempt : Type 0 where
  pub env : Env
  pub session : CoachingSession
  pub action : Answers.Action

-- Further attempts, on any sessions, whether they succeed or not.
abbrev pub attempts : Service → List Attempt → World → World
attempts svc [] w = w
attempts svc (a ∷ more) w = attempts svc more (Answers.respond svc a.env a.session a.action w).1

-- A statement that changes only waiting rows leaves an answered session answered.
update_one-Answered :
    (i k : ℕ) (now : Time) (change : CoachingSession → CoachingSession) (w : World)
    → ((r : CoachingSession) → (change r).id ≡ r.id)
    → Answered i w
    → Answered i (set_sessions w (update_one k (answerable now) change w.db.sessions).1)
unfolding answerable
update_one-Answered i k now change w u (t, f, n) =
    elim (find_row-update_one i k (answerable now) change w.db.sessions t u f) [
      | inl e ↦ (t, e, n)
      | inr (e, g) ↦ ground (arith, g, n)
    ]

answer-keeps :
    (svc : Service) (env : Env) (i k : ℕ) (action : Answers.Action) (w : World)
    → Answered i w
    → Post (Answered i) (Answers.answer svc env k action w)
unfolding Answers.answer Answers.answer_statement confirm_session decline_session confirmed_row
    declined_row
answer-keeps svc env i k confirm w a =
    one_of-Post (Answered i) _ w
      (update_one k (answerable env.db_now) (confirmed_row env.db_now) w.db.sessions) _
      (λ s h.
        finish-Answered svc env confirm i k s _
          (update_one-Answered i k env.db_now (confirmed_row env.db_now) w (λ r. refl) a))
answer-keeps svc env i k decline w a =
    one_of-Post (Answered i) _ w
      (update_one k (answerable env.db_now) (declined_row env.db_now) w.db.sessions) _
      (λ s h.
        finish-Answered svc env decline i k s _
          (update_one-Answered i k env.db_now (declined_row env.db_now) w (λ r. refl) a))
answer-keeps svc env i k other_action w a =
    one_of-Post (Answered i) _ w
      (update_one k (answerable env.db_now) (declined_row env.db_now) w.db.sessions) _
      (λ s h.
        finish-Answered svc env other_action i k s _
          (update_one-Answered i k env.db_now (declined_row env.db_now) w (λ r. refl) a))

settle-keeps :
    {A : Type 0} (i : ℕ) (env : Env) (w : World) (r : Result A × World)
    → Answered i w
    → Post (Answered i) r
    → Answered i (settle env w r).1
settle-keeps i env w (ok a, w') h k = elim (Bool-cases env.commits) [
  | inl c ↦ rw c k
  | inr c ↦ rw c h
]
settle-keeps i env w (err e, w') h k = h

respond-keeps :
    (svc : Service) (env : Env) (i : ℕ) (s : CoachingSession) (action : Answers.Action) (w : World)
    → Answered i w
    → Answered i (Answers.respond svc env s action w).1
unfolding Answers.respond
respond-keeps svc env i s action w a =
    guard_then (Answered i) w _ (Answers.is_answer action) invalid_input a λ _.
      guard_then (Answered i) w _ (status_eq s.status pending) invalid_input a λ _.
        guard_then (Answered i) w _ (not (before s.respond_by env.now)) expired_request a λ _.
          settle-keeps i env w (Answers.answer svc env s.id action w) a
            (answer-keeps svc env i s.id action w a)

pub attempts-keep :
    (svc : Service) (i : ℕ) (more : List Attempt) (w : World)
    → Answered i w
    → Answered i (attempts svc more w)
attempts-keep svc i [] w a = a
attempts-keep svc i (x ∷ xs) w a =
    attempts-keep svc i xs (Answers.respond svc x.env x.session x.action w).1
      (respond-keeps svc x.env i x.session x.action w a)
