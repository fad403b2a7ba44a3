-- ===== src/Coaching/Sweep.antt =====
-- The periodic passes of cmd/worker over the coaching service: ExpirePending and expireBatch of
-- backend/internal/coaching/service.go, SweepPayments of payment.go.
use dating_coach.Base.{
  ℕ, zero, suc, ◌+◌, true, false, Option, none, some, String, List, [], ◌∷◌, ltb, length,
}
use dating_coach.Store.Rows.{CoachingSession, Time}
use dating_coach.Store.Table.{Rows}
use dating_coach.Store.Payments.{
  mark_checkout_expired, mark_authorization_released, mark_session_refunded,
}
use dating_coach.Store.Sweeps.{
  expire_pending_sessions, expire_payment_holds, list_checkouts_to_expire,
  list_authorizations_to_release, list_refunds_due,
}
use dating_coach.Coaching.World.{
  Service, Env, World, Tx, checkout_expired, released, refunded, Error, payment_failed, internal,
  Result, ok, err, pure, call, exec, set_sessions, transaction, ◌>>=◌, ◌>>◌,
}
use dating_coach.Coaching.Mail.{
  get_session_parties, mail_client_expired, mail_coach_calendar_update,
}

abbrev pub expire_batch_size : ℕ
expire_batch_size = 100

unfoldable pub notify_expired : List CoachingSession → Tx (Unit {0})
notify_expired [] = pure tt
notify_expired (s ∷ rest) = do
  parties ← get_session_parties s.id
  mail_client_expired parties
  mail_coach_calendar_update parties
  notify_expired rest

abbrev pub expired_result : World → Rows × Rows → Result Rows × World
expired_result w (batch, rows) = (ok batch, set_sessions w rows)

unfoldable pub expire_batch : Env → Tx ℕ
expire_batch env = transaction env (do
  batch ← λ w.
      expired_result w (expire_pending_sessions expire_batch_size env.held env.db_now w.db.sessions)
  notify_expired batch
  pure (length batch))

-- What a pass leaves: how many it expired, and the error that stopped it.
pub record Pass : Type 0 where
  pub total : ℕ
  pub stopped : Option Error

-- The rest of the loop of ExpirePending after one batch: a batch that is not full is the last.
abbrev pub next_pass :
    (ℕ → World → Option Pass × World) → ℕ → Result ℕ × World → Option Pass × World
next_pass again total (err e, w) = (some (record { total = total; stopped = some e }), w)
next_pass again total (ok n, w) = elim (ltb n expire_batch_size) [
  | true ↦ (some (record { total = total + n; stopped = none }), w)
  | false ↦ again (total + n) w
]

-- The loop, on fuel; `none` says that the fuel ran out.
unfoldable pub expire_pending : ℕ → Env → ℕ → World → Option Pass × World
expire_pending zero env total w = (none, w)
expire_pending (suc fuel) env total w =
    next_pass (expire_pending fuel env) total (expire_batch env w)

-- One loop of SweepPayments: ask the provider, then record it; the first failure stops the pass.
abbrev pub with_ref : Option String → (String → Tx (Unit {0})) → Tx (Unit {0})
with_ref none f w = (err internal, w)
with_ref (some ref) f w = f ref w

unfoldable pub expire_checkouts : Service → Env → List CoachingSession → ℕ → Tx ℕ
expire_checkouts svc env [] n = pure n
expire_checkouts svc env (s ∷ rest) n = do
  with_ref s.payment_ref λ ref.
      call (λ calls. svc.payments.expire_checkout calls ref) (checkout_expired ref) payment_failed
  exec (mark_checkout_expired s.id env.db_now)
  expire_checkouts svc env rest (n + 1)

unfoldable pub release_authorizations : Service → Env → List CoachingSession → ℕ → Tx ℕ
release_authorizations svc env [] n = pure n
release_authorizations svc env (s ∷ rest) n = do
  with_ref s.payment_ref
      λ ref. call (λ calls. svc.payments.release calls ref s.id) (released ref s.id) payment_failed
  exec (mark_authorization_released s.id env.db_now)
  release_authorizations svc env rest (n + 1)

unfoldable pub issue_refunds : Service → Env → List CoachingSession → ℕ → Tx ℕ
issue_refunds svc env [] n = pure n
issue_refunds svc env (s ∷ rest) n = do
  with_ref s.payment_ref
      λ ref. call (λ calls. svc.payments.refund calls ref s.id) (refunded ref s.id) payment_failed
  exec (mark_session_refunded s.id env.db_now)
  issue_refunds svc env rest (n + 1)

pub record SweepResult : Type 0 where
  pub holds_released : ℕ
  pub checkouts_expired : ℕ
  pub authorizations_freed : ℕ
  pub refunds_issued : ℕ

abbrev pub counted : World → ℕ × Rows → Result ℕ × World
counted w (n, rows) = (ok n, set_sessions w rows)

-- `now` is the argument of SweepPayments; the statements run outside a transaction.
unfoldable pub sweep_payments : Service → Env → Time → Tx SweepResult
sweep_payments svc env now = do
  holds ← λ w. counted w (expire_payment_holds now env.db_now w.db.sessions)
  checkouts ← λ w. expire_checkouts svc env (list_checkouts_to_expire w.db.sessions) 0 w
  freed ← λ w. release_authorizations svc env (list_authorizations_to_release w.db.sessions) 0 w
  refunds ← λ w. issue_refunds svc env (list_refunds_due w.db.sessions) 0 w
  pure (record {
    holds_released = holds;
    checkouts_expired = checkouts;
    authorizations_freed = freed;
    refunds_issued = refunds;
  })
