-- ===== src/Coaching/Sound/Booking.antt =====
-- The invariant through both kinds of booking. The second half of a paid booking finds its row still
-- without a checkout, whatever other requests did to it meanwhile.
use dating_coach.Coaching.Clock.{min_checkout_window, max_int32, price_cents}
use dating_coach.Base.{
  if◌then◌else◌, Bool, ◌+◌, ltb, not, ◌∷◌, leb, inr, inl, Option-cases, ℕ, ◌≡◌, ◌≢◌, refl, arith,
  true, false, Option, none, some, String,
}
use dating_coach.Store.Status.{failed, not_required, expiring}
use dating_coach.Store.Rows.{CoachingSession, Time}
use dating_coach.Store.Table.{Rows, Write, find_row}
use dating_coach.Store.Inserts.{
  created_row, create_coaching_session, held_row, create_pending_payment_session, attached_row,
  attach_checkout,
}
use dating_coach.Store.Payments.{
  awaits_payment, abandoned_row, cancel_pending_payment_session, paid_row, pays,
  mark_checkout_expired,
}
use dating_coach.Coaching.World.{
  invalid_input, checkout_created, internal, World, Env, Service, set_sessions, Error, write_result,
  find_coach, find_live_user,
}
use dating_coach.Coaching.Booking
use dating_coach.Coaching.Effects.{notify_requested-SameSessions, required_then, guard_then}
use dating_coach.Coaching.Lifecycle.{needs_ref}
use dating_coach.Coaching.Lifecycle.Statements.{
  created_row-IsConsistent, held_row-IsConsistent, attached_row-IsConsistent,
  abandoned_row-IsConsistent, closed_checkout-IsConsistent,
}
use dating_coach.Coaching.Sound.{
  IsSound, update_one-IsSound, Keeps, WriteSound, insert_row-WriteSound,
}
use dating_coach.Coaching.Sound.Handlers.{notified-Lands, WorldSound, settle-WorldSound}
use dating_coach.Coaching.Sound.Changes.{written_then-Lands}

-- The row of a paid booking that has no checkout yet.
abbrev pub InFlight : ℕ → Rows → Type 0
InFlight i rows =
    (r : CoachingSession)
    → find_row i rows ≡ some r
    → (needs_ref r.payment_status ≡ false) × (r.payment_status ≢ not_required)

write_result-WorldSound :
    (e : Error) (w : World) (o : Write)
    → WorldSound w
    → WriteSound o
    → WorldSound (write_result e w o).1
write_result-WorldSound e w (Write.written r rows) v k = k.1
write_result-WorldSound e w Write.slot_conflict v k = v
write_result-WorldSound e w Write.rejected v k = v
write_result-WorldSound e w Write.no_row v k = v

store_request-Lands :
    (svc : Service) (env : Env) (r : Booking.Request) (token : String) (w : World)
    → WorldSound w
    → WriteSound (
        create_coaching_session env.new_id env.db_now
          (Booking.request_params svc env r token)
          w.db.sessions)
unfolding create_coaching_session Booking.request_params created_row
store_request-Lands svc env r token w v =
    insert_row-WriteSound _ w.db.sessions
      (λ d.
        created_row-IsConsistent env.new_id env.db_now (Booking.request_params svc env r token) d
          refl refl)
      v

held-WriteSound :
    (svc : Service) (env : Env) (r : Booking.Request) (amount : ℕ) (rows : Rows)
    → IsSound rows
    → WriteSound (
        create_pending_payment_session env.new_id env.db_now
          (Booking.hold_params svc env r amount)
          rows)
unfolding create_pending_payment_session Booking.hold_params held_row
held-WriteSound svc env r amount rows v =
    insert_row-WriteSound _ rows
      (λ d.
        held_row-IsConsistent env.new_id env.db_now (Booking.hold_params svc env r amount) d refl)
      v

pub hold_slot-WorldSound :
    (svc : Service) (env : Env) (r : Booking.Request) (w : World)
    → WorldSound w
    → WorldSound (Booking.hold_slot svc env r w).1
unfolding Booking.hold_slot
hold_slot-WorldSound svc env r w v =
    required_then WorldSound w _ (find_coach r.coach_id w.db.coaches) internal v λ coach _.
      required_then WorldSound w _ (find_live_user r.user_id w.db.users) internal v λ user _.
        let amount = price_cents coach.hourly_rate_cents r.duration in
        guard_then {B = CoachingSession} WorldSound w _ (leb amount max_int32) invalid_input v λ _.
          guard_then {B = CoachingSession} WorldSound w _
            (not (ltb r.start (env.now + min_checkout_window))) invalid_input v
            λ _.
              write_result-WorldSound internal w
                (create_pending_payment_session env.new_id env.db_now
                  (Booking.hold_params svc env r amount) w.db.sessions)
                v (held-WriteSound svc env r amount w.db.sessions v)

pub book_free-WorldSound :
    (svc : Service) (env : Env) (r : Booking.Request) (w : World)
    → WorldSound w
    → WorldSound (Booking.book_free svc env r w).1
unfolding Booking.book_free Booking.store_request
book_free-WorldSound svc env r w v =
    required_then WorldSound w _ env.random_token internal v λ token _.
      settle-WorldSound env w (Booking.store_request svc env r token w) v (
        written_then-Lands internal w _ _ (store_request-Lands svc env r token w v) λ s w'.
          notified-Lands s (Booking.notify_requested s.id token w') w'
            (notify_requested-SameSessions s.id token w'))

abandoned-Keeps : (now : Time) (r : CoachingSession) → Keeps awaits_payment (abandoned_row now) r
unfolding abandoned_row
abandoned-Keeps now r = record {
  consistent = λ c g. abandoned_row-IsConsistent now c;
  shrinks = λ g. ground arith;
}

closed-Keeps : (now : Time) (r : CoachingSession) → Keeps (pays expiring) (paid_row failed now) r
unfolding paid_row
closed-Keeps now r = record {
  consistent = λ c g. closed_checkout-IsConsistent now c g;
  shrinks = λ g. ground arith;
}

pub cancel_hold-IsSound :
    (i : ℕ) (now : Time) (rows : Rows)
    → IsSound rows
    → IsSound (cancel_pending_payment_session i now rows).1
unfolding cancel_pending_payment_session
cancel_hold-IsSound i now rows v =
    update_one-IsSound i awaits_payment (abandoned_row now) rows (λ r e. abandoned-Keeps now r) v

pub close_checkout-IsSound :
    (i : ℕ) (now : Time) (rows : Rows) → IsSound rows → IsSound (mark_checkout_expired i now rows).1
unfolding mark_checkout_expired
close_checkout-IsSound i now rows v =
    update_one-IsSound i (pays expiring) (paid_row failed now) rows (λ r e. closed-Keeps now r) v

attached-Keeps :
    (ref : String) (now : Time) (r : CoachingSession)
    → needs_ref r.payment_status ≡ false
    → r.payment_status ≢ not_required
    → Keeps (λ q. true) (attached_row ref now) r
unfolding attached_row
attached-Keeps ref now r n q = record {
  consistent = λ c g. attached_row-IsConsistent now c ref n q;
  shrinks = λ g. ground arith;
}

hand_out-WorldSound :
    (svc : Service) (env : Env) (ref : String) (s : CoachingSession) (w : World)
    → WorldSound w
    → WorldSound (Booking.hand_out svc env ref s w).1
unfolding Booking.hand_out Booking.close_checkout
hand_out-WorldSound svc env ref s w v =
    ground (arith, v, close_checkout-IsSound s.id env.db_now w.db.sessions v)

attach_result-WorldSound :
    (svc : Service) (env : Env) (i : ℕ) (ref : String) (o : Option CoachingSession × Rows)
    (w : World)
    → WorldSound w
    → IsSound o.1
    → WorldSound (Booking.attach_result svc env i ref o w).1
unfolding Booking.orphan_checkout
attach_result-WorldSound svc env i ref (none, rows) w v k =
    cancel_hold-IsSound 0 env.db_now w.db.sessions v
attach_result-WorldSound svc env i ref (some s, rows) w v k =
    hand_out-WorldSound svc env ref s (set_sessions w rows) k

either_table :
    (b : Bool) (o : Option CoachingSession × Rows) (rows : Rows)
    → IsSound rows
    → IsSound o.1
    → IsSound (if b then (none, rows) else o).1
either_table b o rows h k = ground (arith, h, k)

attach-WorldSound :
    (svc : Service) (env : Env) (i : ℕ) (ref : String) (w : World)
    → InFlight i w.db.sessions
    → WorldSound w
    → WorldSound (Booking.attach svc env i ref w).1
unfolding Booking.attach attach_checkout
attach-WorldSound svc env i ref w f v = attach_result-WorldSound svc env i ref _ w v (
    let h =
      update_one-IsSound i (λ q. true) (attached_row ref env.db_now) w.db.sessions
        (λ r e. attached-Keeps ref env.db_now r (f r e).0 (f r e).1) v in
    either_table _ _ w.db.sessions v h)

pub start_checkout-WorldSound :
    (svc : Service) (env : Env) (email : String) (s : CoachingSession) (w : World)
    → InFlight s.id w.db.sessions
    → WorldSound w
    → WorldSound (Booking.start_checkout svc env email s w).1
unfolding Booking.start_checkout Booking.create_checkout Booking.drop_hold Booking.checkout_input
start_checkout-WorldSound svc env email s w f v =
    elim (Option-cases (svc.payments.create_checkout w.calls (Booking.checkout_input s email))) [
      | inl e ↦ rw e (cancel_hold-IsSound s.id env.db_now w.db.sessions v)
      | inr (c, e) ↦ rw e (
          attach-WorldSound svc env s.id c.ref
            (record w { calls = checkout_created s.id true ∷ w.calls }) f v)
    ]
