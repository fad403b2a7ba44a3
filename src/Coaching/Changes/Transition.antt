-- ===== src/Coaching/Changes/Transition.antt =====
-- What a change of status does: SetStatus of backend/internal/coaching/service.go.
use dating_coach.Base.{
  ℕ, suc, ◌≡◌, refl, arith, Bool, true, some, inl, inr, Option-cases, Bool-cases, ◌==◌, subst, sym,
  ◌∙◌, if◌then◌else◌,
}
use dating_coach.Store.Status.{Status, status_eq, cancelled, pending_payment}
use dating_coach.Store.Rows.{CoachingSession}
use dating_coach.Store.Table.{
  find_row, find_row-id, find_row-put_row_self, put_row, update_one, update_one_row,
}
use dating_coach.Store.Updates.{update_session_status, status_row}
use dating_coach.Store.Payments.{release_pending_payment_session, freed_row}
use dating_coach.Coaching.World.{
  World, Env, Result, ok, err, participant, set_sessions, after, pure, Tx,
}
use dating_coach.Coaching.Effects.{
  Post, guard-Post, one_of-Post, settle-Post, notify_cancelled-SameSessions,
}
use dating_coach.Coaching.Changes

-- The session under a key took a status that it may take, at the hands of one who may set it.
abbrev pub MovedTo : ℕ → ℕ → Status → World → World → Type 0
MovedTo i actor_id target w w' =
    (s : CoachingSession) × (find_row i w.db.sessions ≡ some s)
    × (Changes.may_become s.status target ≡ true)
    × ((if Changes.coach_only target then actor_id == s.coach_id else true) ≡ true)
    × ((r : CoachingSession) × (find_row i w'.db.sessions ≡ some r) × (r.status ≡ target))

-- Where the key was found and the change is allowed, a row that is put there has been moved.
module _ (i actor_id : ℕ) (target : Status) (w : World) (s : CoachingSession)
    (found : find_row i w.db.sessions ≡ some s)
    (allowed : Changes.may_become s.status target ≡ true)
    (by : (if Changes.coach_only target then actor_id == s.coach_id else true) ≡ true) where
  put_row-MovedTo :
      (r : CoachingSession)
      → r.id ≡ s.id
      → r.status ≡ target
      → MovedTo i actor_id target w (set_sessions w (put_row s.id r w.db.sessions))
  put_row-MovedTo r k e =
      let at : s.id ≡ i = find_row-id i s w.db.sessions found in
      (
        s,
        found,
        allowed,
        by,
        (
          r,
          subst (λ n. find_row i (put_row n r w.db.sessions) ≡ some r) (sym at)
              (find_row-put_row_self i r s w.db.sessions (k ∙ at) found),
          e,
        ),
      )

  notified-MovedTo :
      (x : CoachingSession) (v : World) (r : Result (Unit {0}) × World)
      → r.1.db.sessions ≡ v.db.sessions
      → MovedTo i actor_id target w v
      → Post (MovedTo i actor_id target w) (after r (λ _. pure x))
  notified-MovedTo x v (ok a, v') e (t, f, m, b, (r, g, q)) = (t, f, m, b, (r, rw e g, q))
  notified-MovedTo x v (err _, v') e k = tt

  told :
      (by_coach : Bool) (v : World)
      → ((if status_eq target cancelled
            then Changes.notify_cancelled s.id by_coach s.status
            else pure tt)
          v).1.db.sessions
        ≡ v.db.sessions
  told by_coach v = ground (arith, notify_cancelled-SameSessions s.id by_coach s.status v)

  move_status-MovedTo :
      (env : Env) (by_coach : Bool)
      → Post (MovedTo i actor_id target w) (Changes.move_status env s by_coach target w)
  unfolding Changes.move_status update_session_status status_row
  move_status-MovedTo env by_coach =
      one_of-Post (MovedTo i actor_id target w) _ w
        (update_one s.id (λ r. status_eq r.status s.status) (status_row target env.db_now)
          w.db.sessions)
        _
        (λ x h.
          let (r, e, g, q, p) = update_one_row s.id _ _ w.db.sessions x h in
          let same : r.id ≡ s.id = find_row-id s.id r w.db.sessions e in
          let v = set_sessions w (put_row s.id (status_row target env.db_now r) w.db.sessions) in
          rw p (
            notified-MovedTo x v
              ((if status_eq target cancelled
                  then Changes.notify_cancelled s.id by_coach s.status
                  else pure tt)
                v)
              (told by_coach v) (put_row-MovedTo (status_row target env.db_now r) same refl)))

  released :
      (env : Env)
      → status_eq s.status pending_payment ≡ true
      → release_pending_payment_session s.id env.db_now w.db.sessions
        ≡ (some (freed_row env.db_now s), put_row s.id (freed_row env.db_now s) w.db.sessions)
  unfolding release_pending_payment_session update_one
  released env c =
      let at : find_row s.id w.db.sessions ≡ some s =
        subst (λ n. find_row n w.db.sessions ≡ some s) (sym (find_row-id i s w.db.sessions found))
          found in
      ground (arith, at, c)

  freed-MovedTo :
      (env : Env)
      → status_eq s.status pending_payment ≡ true
      → MovedTo i actor_id target w
          (set_sessions w (put_row s.id (freed_row env.db_now s) w.db.sessions))
  unfolding freed_row Changes.may_become
  freed-MovedTo env c = put_row-MovedTo (freed_row env.db_now s) refl (ground (arith, c, allowed))

  apply_status-MovedTo :
      (env : Env) (retry : Tx CoachingSession)
      → Post (MovedTo i actor_id target w) (Changes.apply_status env retry s actor_id target w)
  unfolding Changes.apply_status
  apply_status-MovedTo env retry = elim (Bool-cases (status_eq s.status pending_payment)) [
    | inl c ↦ rw (c, released env c) (freed-MovedTo env c)
    | inr n ↦ rw n (
        settle-Post (MovedTo i actor_id target w) env w
          (Changes.move_status env s (actor_id == s.coach_id) target w)
          (move_status-MovedTo env (actor_id == s.coach_id)))
  ]

participant-Post :
    {B : Type 0} (P : World → Type 0) (i j : ℕ) (w : World) (f : CoachingSession → Tx B)
    → ((s : CoachingSession) → find_row i w.db.sessions ≡ some s → Post P (f s w))
    → Post P (after (participant i j w) f)
unfolding participant
participant-Post P i j w f k = elim (Option-cases (find_row i w.db.sessions)) [
  | inl e ↦ rw e tt
  | inr (s, e) ↦ elim (Bool-cases (if s.user_id == j then true else s.coach_id == j)) [
    | inl y ↦ rw (e, y) (k s e)
    | inr n ↦ rw (e, n) tt
  ]
]

set_status-Post :
    (fuel : ℕ) (env : Env) (i actor_id : ℕ) (target : Status) (w : World)
    → Post (MovedTo i actor_id target w) (Changes.set_status (suc fuel) env i actor_id target w)
unfolding Changes.set_status Changes.change_status
set_status-Post fuel env i actor_id target w =
    let P = MovedTo i actor_id target w in
    participant-Post P i actor_id w _ λ s f.
      guard-Post P w _ (Changes.may_become s.status target) _ λ m.
        guard-Post P w _ (if Changes.coach_only target then actor_id == s.coach_id else true) _ λ b.
          apply_status-MovedTo i actor_id target w s f m b env
            (Changes.set_status fuel env i actor_id target)

-- A change of status that succeeded found the session in a status from which it may take the new
-- one, left it in the new one, and was made by the session's coach where only the coach may record
-- that outcome.
pub set_status-MovedTo :
    (fuel : ℕ) (env : Env) (i actor_id : ℕ) (target : Status) (w w' : World) (r : CoachingSession)
    → Changes.set_status (suc fuel) env i actor_id target w ≡ (ok r, w')
    → MovedTo i actor_id target w w'
set_status-MovedTo fuel env i actor_id target w w' r h =
    subst (Post (MovedTo i actor_id target w)) h (set_status-Post fuel env i actor_id target w)
