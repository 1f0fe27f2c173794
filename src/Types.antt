-- ===== src/Types.antt =====
-- server/internal/types: the words that the components share.
pub mod Task
pub mod Placeholder
pub mod Words
pub mod Run
pub mod Notify
