-- ===== src/Ingest.antt =====
-- internal/ingest: the gateway's configuration, cursor, journal reconciliation and disk state.
pub mod Config
pub mod Cursor
pub mod CursorLaws
pub mod Disk
pub mod DiskLaws
pub mod Session
pub mod SessionLaws
pub mod SessionStart
pub mod Generations
pub mod Gateway
pub mod Reconcile
pub mod Replay
pub mod Rebuilt
pub mod Ownership
pub mod Accept
pub mod Recorded
pub mod Answered
pub mod Storable
pub mod Durability
pub mod LogGrowth
pub mod InStep
pub mod Poisoning
pub mod Events
pub mod Later
pub mod Resent
pub mod Wire
pub mod WireLaws
pub mod Connection
pub mod Acknowledged
pub mod ConnectionLaws
pub mod ConnectionEnd
mod Tests
pub mod Samples
mod GatewayTests
mod ResentTests
mod ConnectionTests
