-- ===== src/Coaching/Answers/Once.antt =====
-- A request is answered once: respond of backend/internal/coaching/service.go when two answers
-- carry the same snapshot, or any snapshots, of one session.
use dating_coach.Coaching.Answers.{other_action, pure, decline, confirm}
use dating_coach.Base.{List, sym, subst, ℕ, ◌≡◌, ◌≢◌, arith, true}
use dating_coach.Store.Rows.{CoachingSession}
use dating_coach.Store.Table.{update_one, update_one_row}
use dating_coach.Store.Updates.{
  answerable, confirmed_row, confirm_session, declined_row, decline_session,
}
use dating_coach.Coaching.World.{World, Env, Service, Result, ok, err}
use dating_coach.Coaching.Effects.{Post, one_of-Post, settle-Post}
use dating_coach.Coaching.Answers
use dating_coach.Coaching.Answers.Answered.{
  Answered, Attempt, attempts, respond-Answered, attempts-keep,
}

-- An answered session has no answerable row.
refuses-Answered :
    (svc : Service) (env : Env) (i : ℕ) (action : Answers.Action) (w : World)
    → Answers.is_answer action ≡ true
    → Answered i w
    → Post (λ _. ⊥) (Answers.answer svc env i action w)
unfolding Answers.answer Answers.answer_statement confirm_session decline_session answerable
refuses-Answered svc env i confirm w k (t, f, n) =
    one_of-Post (λ _. ⊥) _ w
      (update_one i (answerable env.db_now) (confirmed_row env.db_now) w.db.sessions) _
      (λ s h.
        let (r, e, g, q, p) = update_one_row i _ _ w.db.sessions s h in ground (arith, f, e, g, n))
refuses-Answered svc env i decline w k (t, f, n) =
    one_of-Post (λ _. ⊥) _ w
      (update_one i (answerable env.db_now) (declined_row env.db_now) w.db.sessions) _
      (λ s h.
        let (r, e, g, q, p) = update_one_row i _ _ w.db.sessions s h in ground (arith, f, e, g, n))
refuses-Answered svc env i other_action w k a = cc

respond_refuses :
    (svc : Service) (env : Env) (s : CoachingSession) (action : Answers.Action) (w : World)
    → Answered s.id w
    → Post (λ _. ⊥) (Answers.respond svc env s action w)
unfolding Answers.respond
respond_refuses svc env s action w a = ground (
  arith,
  λ (k : Answers.is_answer action ≡ true).
      settle-Post (λ _. ⊥) env w (Answers.answer svc env s.id action w)
        (refuses-Answered svc env s.id action w k a),
)

Post-ok :
    {A : Type 0} (P : World → Type 0) (r : Result A × World) (x : A) (w : World)
    → r ≡ (ok x, w)
    → Post P r
    → P w
Post-ok P r x w e h = subst (Post P) e h

never-ok : {A : Type 0} (r : Result A × World) (x : A) → Post (λ _. ⊥) r → r.0 ≢ ok x
never-ok (ok a, w) x h e = h
never-ok (err a, w) x h e = ground (arith, e)

-- After one answer of a session has been committed, and any further attempts to answer this or other
-- sessions, no answer to it succeeds: neither the same nor the other action, at whatever time and on
-- whatever snapshot of the session it was sent. No request other than answers comes in between: a
-- client who moves the session asks for a new answer.
pub respond_once :
    (svc : Service) (env env' : Env) (s s' : CoachingSession) (action action' : Answers.Action)
    (more : List Attempt) (w w' : World) (r x : CoachingSession)
    → Answers.respond svc env s action w ≡ (ok r, w')
    → s'.id ≡ s.id
    → (Answers.respond svc env' s' action' (attempts svc more w')).0 ≢ ok x
respond_once svc env env' s s' action action' more w w' r x h same =
    let a = Post-ok (Answered s.id) _ r w' h (respond-Answered svc env s action w) in
    let b = attempts-keep svc s.id more w' a in
    let v = attempts svc more w' in
    never-ok (Answers.respond svc env' s' action' v) x
      (respond_refuses svc env' s' action' v (subst (λ i. Answered i v) (sym same) b))
