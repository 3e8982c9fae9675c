-- ===== src/Store/Types.antt =====
-- The resource types of internal/store/types.go, and the event of internal/store/store.go.
mod Core
mod Workload
mod Access
mod Events
unfoldable pub use Core.*
unfoldable pub use Workload.*
pub use Access.*
pub use Events.*
