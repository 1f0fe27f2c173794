-- ===== src/Store.antt =====
-- server/internal/store: the tables of the SQLite database and the statements on them.
pub mod Database
pub mod Tasks
pub mod Runs
pub mod Channels
pub mod References
pub mod Writes
pub mod Integrity
pub mod Attempts
mod Tests
