-- ===== src/Wasm.antt =====
-- internal/runtime/wasm
pub mod Cron
pub mod Entries
pub mod Leftover
pub mod Pool
pub mod Permits
pub mod Rehydrate
