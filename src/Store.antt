-- ===== src/Store.antt =====
-- The storage of the relay (relay/src/store.rs): its tables, and the operations on them.
pub mod Types
pub mod State
pub mod Update
pub mod Pages
pub mod Delete
pub mod Rows
mod Tests
