-- ===== src/Peer.antt =====
-- The peer table of the relay (relay/src/peer.rs): addresses, URLs, and the table with its calls.
pub mod Address
pub mod Url
pub mod Policy
pub mod State
pub mod Announce
pub mod Liveness
pub mod Views
pub mod Calls
mod Tests
