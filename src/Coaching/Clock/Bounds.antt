-- ===== src/Coaching/Clock/Bounds.antt =====
-- Bounds of the deadline and of the price (respondDeadline and priceCents).
use dating_coach.Base.{ℕ, ◌+◌, ◌*◌, ◌≤◌, ◌<◌, ◌⊎◌, arith}
use dating_coach.Store.Rows.{Time}
use dating_coach.Coaching.Clock.{
  respond_deadline, price_cents, respond_window, respond_lead_time, max_hourly_rate_cents,
  max_session_minutes, max_int32,
}

-- A request made by the start of its session expires between now and the start, within the response
-- window, and, where the lead time before the session has not begun, no later than it begins.
pub respond_deadline_bounds :
    (now start : Time)
    → now ≤ start
    → (now ≤ respond_deadline now start)
      × (respond_deadline now start ≤ start)
      × (respond_deadline now start ≤ now + respond_window)
      × ((respond_deadline now start + respond_lead_time ≤ start)
          ⊎ (start < now + respond_lead_time))
unfolding respond_deadline
respond_deadline_bounds now start h = (ground arith, ground arith, ground arith, ground arith)

-- A price is the exact charge rounded to the nearest cent, and at a rate and a duration within their
-- limits it fits the 32-bit column.
pub price_cents_bounds :
    (rate duration : ℕ)
    → rate ≤ max_hourly_rate_cents
    → duration ≤ max_session_minutes
    → (60 * price_cents rate duration ≤ rate * duration + 30)
      × (rate * duration < 60 * price_cents rate duration + 30)
      × (price_cents rate duration ≤ max_int32)
unfolding price_cents
price_cents_bounds rate duration h k =
    let top : rate * duration ≤ max_hourly_rate_cents * max_session_minutes = grind arith in
    (omega arith, omega arith, omega (arith, top))
