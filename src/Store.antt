-- ===== src/Store.antt =====
-- backend/internal/store/db: the rows the coaching service reads and writes, and the SQL statements
-- on them. A statement is a function on the rows; a row is found by its primary key.
pub mod Status
pub mod Rows
pub mod Table
pub mod Inserts
pub mod Updates
pub mod Payments
pub mod Sweeps
pub mod Users
pub mod Tokens
pub mod Deletions
pub mod Outbox
pub mod Reviews
pub mod Coaches
