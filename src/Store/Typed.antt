-- ===== src/Store/Typed.antt =====
-- The typed operations of internal/store/store.go.
mod Listing
mod Workloads
mod Resources
mod Identities
mod Cluster
mod Deliveries
mod EventLog
unfoldable pub use Listing.*
unfoldable pub use Workloads.*
unfoldable pub use Resources.*
unfoldable pub use Identities.*
unfoldable pub use Cluster.*
unfoldable pub use Deliveries.*
unfoldable pub use EventLog.*
