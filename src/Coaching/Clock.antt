-- ===== src/Coaching/Clock.antt =====
-- The arithmetic of backend/internal/coaching: when a request expires, and what a session costs.
pub mod Bounds
use dating_coach.Base.{ℕ, ◌+◌, ◌-◌, ◌*◌, ◌/◌, ltb, if◌then◌else◌}
use dating_coach.Store.Rows.{Time, minute, hour}

abbrev pub respond_window : Time
respond_window = 24 * hour

abbrev pub respond_lead_time : Time
respond_lead_time = 2 * hour

abbrev pub default_session_minutes : ℕ
default_session_minutes = 45

abbrev pub min_session_minutes : ℕ
min_session_minutes = 15

abbrev pub max_session_minutes : ℕ
max_session_minutes = 240

abbrev pub max_int32 : ℕ
max_int32 = 2147483647

abbrev pub max_hourly_rate_cents : ℕ
max_hourly_rate_cents = max_int32 / (max_session_minutes / 60)

abbrev pub min_checkout_window : Time
min_checkout_window = 5 * minute

-- `latest` is start.Add(-respondLeadTime); instants are counted from an origin at least two hours
-- before any session, so the subtraction is exact.
unfoldable pub respond_deadline : Time → Time → Time
respond_deadline now start =
    let window_end = now + respond_window in
    let latest = start - respond_lead_time in
    let deadline = if ltb latest window_end then latest else window_end in
    if ltb deadline now then start else deadline

unfoldable pub price_cents : ℕ → ℕ → ℕ
price_cents hourly_rate_cents duration = (hourly_rate_cents * duration + 30) / 60
