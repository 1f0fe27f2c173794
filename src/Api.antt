-- ===== src/Api.antt =====
-- server/internal/api: the handlers of the tasks over the database, the registry and the event bus.
pub mod Requests
pub mod Tasks
pub mod Reads
pub mod Registered
pub mod Switched
pub mod Rows
pub mod Mirror
pub mod Touched
pub mod Updates
pub mod Schedules
pub mod History
pub mod Merge
pub mod Kept
mod Tests
