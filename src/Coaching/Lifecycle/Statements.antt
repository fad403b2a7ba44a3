-- ===== src/Coaching/Lifecycle/Statements.antt =====
-- The consistency of a row through each SQL statement's change of it, under the statement's guard.
use dating_coach.Base.{◌≡◌, ◌≢◌, arith, true, false, some, is_some, String}
use dating_coach.Store.Status.{
  Status, pending_payment, PaymentStatus, paid, authorized, releasing, released, refund_due,
  refunded, expiring, failed, status_eq,
}
use dating_coach.Store.Rows.{CoachingSession, Time}
use dating_coach.Store.Inserts.{
  CreateCoachingSession, CreatePendingPayment, created_row, held_row, attached_row,
}
use dating_coach.Store.Updates.{
  RescheduleParams, answerable, confirmed_row, declined_row, status_row, moved_row, noted_row,
  linked_row,
}
use dating_coach.Store.Payments.{
  authorized_row, late_row, paid_row, releasable, pays, abandoned_row, freed_row,
}
use dating_coach.Store.Sweeps.{overdue, expired_row, lapsed_row}
use dating_coach.Coaching.Changes.{may_become}
use dating_coach.Coaching.Lifecycle.{
  duration_allowed, IsConsistent, needs_ref, waits_for_coach, waits_for_card, payment_allowed,
}

module _ {r : CoachingSession} (now : Time) (c : IsConsistent r) where
  pub confirmed_row-IsConsistent :
      answerable now r ≡ true → r.payment_status ≢ authorized → IsConsistent (confirmed_row now r)
  unfolding answerable confirmed_row
  confirmed_row-IsConsistent g n = ground arith

  -- The confirmation of a held card is consistent once the card is charged.
  pub captured_row-IsConsistent :
      answerable now r ≡ true
      → r.payment_status ≡ authorized
      → IsConsistent (paid_row paid now (confirmed_row now r))
  unfolding answerable confirmed_row paid_row
  captured_row-IsConsistent g n = ground arith

  pub declined_row-IsConsistent : answerable now r ≡ true → IsConsistent (declined_row now r)
  unfolding answerable declined_row
  declined_row-IsConsistent g = ground arith

  pub expired_row-IsConsistent : overdue now r ≡ true → IsConsistent (expired_row now r)
  unfolding overdue expired_row
  expired_row-IsConsistent g = ground arith

  pub status_row-IsConsistent :
      (target : Status)
      → may_become r.status target ≡ true
      → r.status ≢ pending_payment
      → IsConsistent (status_row target now r)
  unfolding may_become status_row
  status_row-IsConsistent target g n = ground arith

  pub noted_row-IsConsistent : (notes : String) → IsConsistent (noted_row notes now r)
  unfolding noted_row
  noted_row-IsConsistent notes = ground arith

  pub linked_row-IsConsistent : (url : String) → IsConsistent (linked_row url now r)
  unfolding linked_row
  linked_row-IsConsistent url = ground arith

  -- A checkout is attached to a row that has none and was created to be paid for.
  pub attached_row-IsConsistent :
      (ref : String)
      → needs_ref r.payment_status ≡ false
      → r.payment_status ≢ PaymentStatus.not_required
      → IsConsistent (attached_row ref now r)
  unfolding attached_row
  attached_row-IsConsistent ref g n = ground arith

  pub authorized_row-IsConsistent :
      (token : String) (deadline : Time)
      → is_some r.payment_ref ≡ true
      → IsConsistent (authorized_row (some token) (some deadline) now r)
  unfolding authorized_row
  authorized_row-IsConsistent token deadline g = ground arith

  pub late_row-IsConsistent : is_some r.payment_ref ≡ true → IsConsistent (late_row now r)
  unfolding late_row
  late_row-IsConsistent g = ground arith

  pub released_row-IsConsistent :
      releasable r ≡ true
      → r.status ≢ pending_payment
      → is_some r.payment_ref ≡ true
      → IsConsistent (paid_row releasing now r)
  unfolding releasable paid_row
  released_row-IsConsistent g n h = ground arith

  pub freed_authorization-IsConsistent :
      pays releasing r ≡ true → IsConsistent (paid_row released now r)
  unfolding paid_row
  freed_authorization-IsConsistent g = ground arith

  pub refunded_row-IsConsistent : pays refund_due r ≡ true → IsConsistent (paid_row refunded now r)
  unfolding paid_row
  refunded_row-IsConsistent g = ground arith

  pub closed_checkout-IsConsistent : pays expiring r ≡ true → IsConsistent (paid_row failed now r)
  unfolding paid_row
  closed_checkout-IsConsistent g = ground arith

  pub abandoned_row-IsConsistent : IsConsistent (abandoned_row now r)
  unfolding abandoned_row
  abandoned_row-IsConsistent = ground arith

  pub freed_row-IsConsistent : IsConsistent (freed_row now r)
  unfolding freed_row
  freed_row-IsConsistent = ground arith

  pub lapsed_row-IsConsistent : IsConsistent (lapsed_row now r)
  unfolding lapsed_row
  lapsed_row-IsConsistent = ground arith

  pub moved_row-IsConsistent :
      (p : RescheduleParams)
      → status_eq r.status p.expected_status ≡ true
      → waits_for_card p.status ≡ false
      → payment_allowed p.status r.payment_status ≡ true
      → (waits_for_coach p.status ≡ true → is_some p.confirmation_token ≡ true)
      → (waits_for_coach p.status ≡ true → is_some p.respond_by ≡ true)
      → IsConsistent (moved_row p now r)
  unfolding moved_row
  moved_row-IsConsistent p g w f t d = ground arith

pub created_row-IsConsistent :
    (id now : Time) (p : CreateCoachingSession)
    → duration_allowed p.duration_minutes ≡ true
    → is_some p.confirmation_token ≡ true
    → is_some p.respond_by ≡ true
    → IsConsistent (created_row id now p)
unfolding created_row
created_row-IsConsistent id now p f t d = ground arith

pub held_row-IsConsistent :
    (id now : Time) (p : CreatePendingPayment)
    → duration_allowed p.duration_minutes ≡ true
    → is_some p.hold_expires_at ≡ true
    → IsConsistent (held_row id now p)
unfolding held_row
held_row-IsConsistent id now p f h = ground arith
