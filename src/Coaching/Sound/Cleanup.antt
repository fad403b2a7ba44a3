-- ===== src/Coaching/Sound/Cleanup.antt =====
-- The invariant through SweepPayments, also where a provider call fails half-way.
use dating_coach.Store.Status.{PaymentStatus, releasing, refund_due}
use dating_coach.Coaching.Sound.Booking.{close_checkout-IsSound}
use dating_coach.Store.Payments.{
  pays, mark_checkout_expired, paid_row, mark_session_refunded, mark_authorization_released,
}
use dating_coach.Coaching.Sound.Handlers.{after-WorldSound, WorldSound}
use dating_coach.Coaching.Effects.{SameSessions}
use dating_coach.Coaching.World.{
  payment_failed, checkout_expired, released, refunded, call, Error, Service, ProviderCall, ◌>>◌,
  exec, after, Tx, set_sessions, World, Env,
}
use dating_coach.Coaching.Sound.{update_one-IsSound, Keeps, update_all-IsSound, IsSound}
use dating_coach.Coaching.Lifecycle.Statements.{
  refunded_row-IsConsistent, freed_authorization-IsConsistent, lapsed_row-IsConsistent,
}
use dating_coach.Base.{
  All-All, ◌+◌, sym, subst, ℕ, arith, Bool, Option, none, some, String, List, [], ◌∷◌,
}
use dating_coach.Store.Rows.{CoachingSession, Time}
use dating_coach.Store.Table.{Rows}
use dating_coach.Store.Sweeps.{
  list_refunds_due, list_authorizations_to_release, list_checkouts_to_expire, hold_lapsed,
  lapsed_row, expire_payment_holds,
}
use dating_coach.Coaching.Sweep
use dating_coach.Coaching.Calendar.{Shrinks}

with_ref-WorldSound :
    (o : Option String) (ask : String → Tx (Unit {0})) (w : World)
    → ((ref : String) → SameSessions w (ask ref w).1)
    → WorldSound w
    → WorldSound (Sweep.with_ref o ask w).1
with_ref-WorldSound none ask w same v = v
with_ref-WorldSound (some ref) ask w same v = subst IsSound (sym (same ref)) v

-- One entry of a clean-up loop: the call, the mark, and the rest.
cleaned-WorldSound :
    (o : Option String) (ask : String → Tx (Unit {0})) (mark : Rows → Option CoachingSession × Rows)
    (rest : Tx ℕ) (w : World)
    → ((ref : String) → SameSessions w (ask ref w).1)
    → ((rows : Rows) → IsSound rows → IsSound (mark rows).1)
    → ((w' : World) → WorldSound w' → WorldSound (rest w').1)
    → WorldSound w
    → WorldSound (after (Sweep.with_ref o ask w) λ _. exec mark >> rest).1
cleaned-WorldSound o ask mark rest w same keep k v =
    after-WorldSound (Sweep.with_ref o ask w) _ (with_ref-WorldSound o ask w same v)
      (λ _ w' v'. k (set_sessions w' (mark w'.db.sessions).1) (keep w'.db.sessions v'))

call-SameSessions :
    (ask : List ProviderCall → Bool) (entry : Bool → ProviderCall) (e : Error) (w : World)
    → SameSessions w (call ask entry e w).1
call-SameSessions ask entry e w = ground arith

expire_checkouts-WorldSound :
    (svc : Service) (env : Env) (xs : List CoachingSession) (n : ℕ) (w : World)
    → WorldSound w
    → WorldSound (Sweep.expire_checkouts svc env xs n w).1
unfolding Sweep.expire_checkouts
expire_checkouts-WorldSound svc env [] n w v = v
expire_checkouts-WorldSound svc env (s ∷ xs) n w v =
    cleaned-WorldSound s.payment_ref _ (mark_checkout_expired s.id env.db_now)
      (Sweep.expire_checkouts svc env xs (n + 1)) w
      (λ ref.
        call-SameSessions (λ calls. svc.payments.expire_checkout calls ref) (checkout_expired ref)
          payment_failed w)
      (λ rows. close_checkout-IsSound s.id env.db_now rows)
      (expire_checkouts-WorldSound svc env xs (n + 1)) v

freed-Keeps :
    (now : Time) (r : CoachingSession)
    → Keeps (pays releasing) (paid_row PaymentStatus.released now) r
unfolding paid_row
freed-Keeps now r = record {
  consistent = λ c g. freed_authorization-IsConsistent now c g;
  shrinks = λ g. ground arith;
}

release_authorizations-WorldSound :
    (svc : Service) (env : Env) (xs : List CoachingSession) (n : ℕ) (w : World)
    → WorldSound w
    → WorldSound (Sweep.release_authorizations svc env xs n w).1
unfolding Sweep.release_authorizations mark_authorization_released
release_authorizations-WorldSound svc env [] n w v = v
release_authorizations-WorldSound svc env (s ∷ xs) n w v =
    cleaned-WorldSound s.payment_ref _ (mark_authorization_released s.id env.db_now)
      (Sweep.release_authorizations svc env xs (n + 1)) w
      (λ ref.
        call-SameSessions (λ calls. svc.payments.release calls ref s.id) (released ref s.id)
          payment_failed w)
      (λ rows. update_one-IsSound s.id _ _ rows (λ r e. freed-Keeps env.db_now r))
      (release_authorizations-WorldSound svc env xs (n + 1)) v

refunded-Keeps :
    (now : Time) (r : CoachingSession)
    → Keeps (pays refund_due) (paid_row PaymentStatus.refunded now) r
unfolding paid_row
refunded-Keeps now r = record {
  consistent = λ c g. refunded_row-IsConsistent now c g;
  shrinks = λ g. ground arith;
}

issue_refunds-WorldSound :
    (svc : Service) (env : Env) (xs : List CoachingSession) (n : ℕ) (w : World)
    → WorldSound w
    → WorldSound (Sweep.issue_refunds svc env xs n w).1
unfolding Sweep.issue_refunds mark_session_refunded
issue_refunds-WorldSound svc env [] n w v = v
issue_refunds-WorldSound svc env (s ∷ xs) n w v =
    cleaned-WorldSound s.payment_ref _ (mark_session_refunded s.id env.db_now)
      (Sweep.issue_refunds svc env xs (n + 1)) w
      (λ ref.
        call-SameSessions (λ calls. svc.payments.refund calls ref s.id) (refunded ref s.id)
          payment_failed w)
      (λ rows. update_one-IsSound s.id _ _ rows (λ r e. refunded-Keeps env.db_now r))
      (issue_refunds-WorldSound svc env xs (n + 1)) v

lapsed-Shrinks : (now : Time) (r : CoachingSession) → Shrinks r (lapsed_row now r)
unfolding lapsed_row
lapsed-Shrinks now r = ground arith

expire_payment_holds-IsSound :
    (now db_now : Time) (rows : Rows)
    → IsSound rows
    → IsSound (expire_payment_holds now db_now rows).1
unfolding expire_payment_holds
expire_payment_holds-IsSound now db_now rows v =
    update_all-IsSound (hold_lapsed now) (lapsed_row db_now) (λ r g. lapsed-Shrinks db_now r) rows
      (All-All (λ r g c. lapsed_row-IsConsistent db_now c) rows) v

pub sweep_payments-WorldSound :
    (svc : Service) (env : Env) (now : Time) (w : World)
    → WorldSound w
    → WorldSound (Sweep.sweep_payments svc env now w).1
unfolding Sweep.sweep_payments
sweep_payments-WorldSound svc env now w v =
    let held = expire_payment_holds-IsSound now env.db_now w.db.sessions v in
    let w1 = set_sessions w (expire_payment_holds now env.db_now w.db.sessions).1 in
    after-WorldSound (Sweep.expire_checkouts svc env (list_checkouts_to_expire w1.db.sessions) 0 w1)
      _ (expire_checkouts-WorldSound svc env (list_checkouts_to_expire w1.db.sessions) 0 w1 held)
      λ _ w2 v2.
        after-WorldSound
          (Sweep.release_authorizations svc env (list_authorizations_to_release w2.db.sessions) 0
            w2)
          _
          (release_authorizations-WorldSound svc env (list_authorizations_to_release w2.db.sessions)
            0 w2 v2)
          λ _ w3 v3.
            after-WorldSound (Sweep.issue_refunds svc env (list_refunds_due w3.db.sessions) 0 w3) _
              (issue_refunds-WorldSound svc env (list_refunds_due w3.db.sessions) 0 w3 v3)
              λ _ w4 v4. v4
