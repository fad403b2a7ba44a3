-- ===== src/Auth.antt =====
-- The accounts of the backend: backend/internal/auth, with the tables of backend/internal/store/db.
pub mod World
pub mod Codes
pub mod Sessions
pub mod Verification
pub mod Accounts
pub mod Rotation
pub mod Reuse
pub mod Guesses
pub mod Strikes
pub mod Requests
pub mod Credentials
pub mod Deleted
pub mod Spared
pub mod Farewell
pub mod Aftermath
pub mod Profiles
pub mod Choices
pub mod Gate
pub mod Throttle
pub mod Routes
