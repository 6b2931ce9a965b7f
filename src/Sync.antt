-- ===== src/Sync.antt =====
-- internal/memsync: the exchange of changes between peers. Types and the database rows, the values
-- of changes, the handshake, extraction, verification and application of batches, the status view,
-- the HTTP handlers and the sync cycle of cmd/syncd.
pub mod Types
pub mod Values
pub mod PeerStates
pub mod Handshake
pub mod Extract
pub mod Verification
pub mod Quarantine
pub mod Changes
pub mod Bookkeeping
pub mod Apply
pub mod Status
pub mod Transport
pub mod Cycle
