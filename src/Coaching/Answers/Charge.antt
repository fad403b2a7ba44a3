-- ===== src/Coaching/Answers/Charge.antt =====
-- The charge that a confirmation makes: capture of backend/internal/coaching/payment.go inside
-- respond of service.go.
use dating_coach.Coaching.Answers.{confirm}
use dating_coach.Base.{
  subst, ◌∙◌, ℕ, ◌≡◌, ◌≢◌, ◌⊎◌, refl, arith, true, some, inl, inr, Option-cases, Bool-cases, String,
  ◌∷◌,
}
use dating_coach.Store.Status.{authorized, payment_eq}
use dating_coach.Store.Rows.{CoachingSession}
use dating_coach.Store.Table.{find_row, update_one, update_one_row}
use dating_coach.Store.Updates.{answerable, confirmed_row, confirm_session}
use dating_coach.Coaching.World.{World, Env, Service, Result, ok, err, captured, after, pure}
use dating_coach.Coaching.Effects.{Post, after-Post, one_of-Post, settle-Post}
use dating_coach.Coaching.Answers

-- What a confirmation that succeeded asked of the provider.
abbrev pub Charged : ℕ → World → World → Type 0
Charged i w w' =
    (r : CoachingSession) × (find_row i w.db.sessions ≡ some r)
    × (((r.payment_status ≡ authorized)
          × ((ref : String) × (r.payment_ref ≡ some ref)
              × (w'.calls ≡ captured ref r.id true ∷ w.calls)))
        ⊎ ((r.payment_status ≢ authorized) × (w'.calls ≡ w.calls)))

notify_answer-calls :
    (action : Answers.Action) (i : ℕ) (w : World)
    → (Answers.notify_answer action i w).1.calls ≡ w.calls
unfolding Answers.notify_answer
notify_answer-calls action i w = ground arith

notified-Charged :
    {A : Type 0} (i : ℕ) (u : World) (x : A) (v : World) (r : Result (Unit {0}) × World)
    → r.1.calls ≡ v.calls
    → Charged i u v
    → Post (Charged i u) (after r (λ _. pure x))
notified-Charged i u x v (ok a, v') e (r, f, inl (p, (ref, q, c))) =
    (r, f, inl (p, (ref, q, e ∙ c)))
notified-Charged i u x v (ok a, v') e (r, f, inr (p, c)) = (r, f, inr (p, e ∙ c))
notified-Charged i u x v (err _, v') e c = tt

confirmed_row-keeps :
    (now : _) (r : CoachingSession)
    → ((confirmed_row now r).payment_status ≡ r.payment_status)
      × ((confirmed_row now r).payment_ref ≡ r.payment_ref)
      × ((confirmed_row now r).id ≡ r.id)
unfolding confirmed_row
confirmed_row-keeps now r = (refl, refl, refl)

settle_payment-Charged :
    (svc : Service) (env : Env) (i : ℕ) (w v : World) (r s : CoachingSession)
    → find_row i w.db.sessions ≡ some r
    → s.payment_status ≡ r.payment_status
    → s.payment_ref ≡ r.payment_ref
    → s.id ≡ r.id
    → v.calls ≡ w.calls
    → Post (Charged i w) (Answers.settle_payment svc env confirm s v)
unfolding Answers.settle_payment Answers.capture
settle_payment-Charged svc env i w v r s f p q k c =
    elim (Bool-cases (payment_eq s.payment_status authorized)) [
      | inl h ↦ elim (Option-cases s.payment_ref) [
        | inl e ↦ rw (h, e) tt
        | inr (ref, e) ↦ elim (Bool-cases (svc.payments.capture v.calls ref s.id)) [
          | inl g ↦
              rw (h, e, g)
                (
                  r,
                  f,
                  inl (ground (arith, h, p), (ref, ground (arith, e, q), ground (arith, k, c))),
                )
          | inr g ↦ rw (h, e, g) tt
        ]
      ]
      | inr h ↦ rw h (r, f, inr (ground (arith, h, p), c))
    ]

answer-Charged :
    (svc : Service) (env : Env) (i : ℕ) (w : World)
    → Post (Charged i w) (Answers.answer svc env i confirm w)
unfolding Answers.answer Answers.answer_statement confirm_session
answer-Charged svc env i w =
    one_of-Post (Charged i w) _ w
      (update_one i (answerable env.db_now) (confirmed_row env.db_now) w.db.sessions) _
      (λ s h.
        let (r, e, g, q, p) = update_one_row i _ _ w.db.sessions s h in
        let (a, b, c) = confirmed_row-keeps env.db_now r in
        after-Post (Charged i w) (Charged i w) (Answers.settle_payment svc env confirm s _) _
          (rw q (settle_payment-Charged svc env i w _ r (confirmed_row env.db_now r) e a b c refl))
          (λ x v k.
            notified-Charged i w x v (Answers.notify_answer confirm i v)
              (notify_answer-calls confirm i v) k))

-- A confirmation that succeeded charged the client's card exactly once where the stored session
-- held an authorisation, for that session and under its payment reference, and asked nothing of the
-- provider where it held none.
pub confirm_charges_once :
    (svc : Service) (env : Env) (s r : CoachingSession) (w w' : World)
    → Answers.respond svc env s confirm w ≡ (ok r, w')
    → Charged s.id w w'
unfolding Answers.respond
confirm_charges_once svc env s r w w' h = subst (Post (Charged s.id w)) h (
    ground (
      arith,
      settle-Post (Charged s.id w) env w (Answers.answer svc env s.id confirm w)
          (answer-Charged svc env s.id w),
    ))
