-- ===== src/Examples.antt =====
-- The theorems of the other modules at concrete inputs.
mod Documents
mod Memory
mod Stores
mod Storage
mod Replicating
mod Values
mod Admission
mod Converging
mod Emitting
mod Bytes
mod Revealing
mod Sessions
mod Logging
mod Wizard
mod Building
mod Watching
mod Ordering
