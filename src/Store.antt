-- ===== src/Store.antt =====
-- internal/store.
pub mod Types
pub mod Bolt
pub mod Ordered
pub mod Deps
pub mod Core
pub mod Keys
pub mod Listing
pub mod Writes
pub mod Scoped
pub mod RoundTrip
pub mod Deletion
pub mod Singleton
pub mod Elsewhere
pub mod Isolation
pub mod Tenancy
pub mod Trimming
pub mod Typed
pub mod Fsm
pub mod Replicated
pub mod Replication
pub mod ReplicatedOps
