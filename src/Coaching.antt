-- ===== src/Coaching.antt =====
-- backend/internal/coaching: booking, answering, moving, cancelling and paying for sessions.
pub mod World
pub mod Clock
pub mod Mail
pub mod Slots
pub mod Answers
pub mod Changes
pub mod Booking
pub mod Payment
pub mod Sweep
pub mod Lifecycle
pub mod Effects
pub mod Calendar
pub mod Sound
pub mod History
pub mod Atomic
pub mod Access
pub mod Expiry
pub mod Offers
pub mod Reviews
pub mod Profiles
