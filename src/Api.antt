-- ===== src/Api.antt =====
-- internal/api: the HTTP handlers. A handler is a function of the store and of what the request
-- decodes to; it returns the store and the reply.
pub mod Reply
pub mod Setup
pub mod Completed
pub mod Unchanged
pub mod Retry
pub mod Projects
pub mod Sessions
pub mod Containers
pub mod Buckets
pub mod Defaults
pub mod Functions
pub mod Updates
pub mod Guard
pub mod Follower
pub mod Admitted
pub mod Invocations
pub mod Invoke
pub mod Environment
pub mod Triggers
pub mod Cluster
pub mod Proxy
pub mod Join
pub mod Webhooks
pub mod Push
pub mod Secrets
pub mod Rules
pub mod Readiness
