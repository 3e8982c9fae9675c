-- ===== src/Reconcile.antt =====
-- internal/runtime/container/reconcile.go
pub mod State
pub mod Backoff
pub mod Step
pub mod One
pub mod Run
pub mod Quiet
pub mod Running
pub mod Again
pub mod Rewrite
pub mod Exits
pub mod Plaintext
