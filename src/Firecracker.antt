-- ===== src/Firecracker.antt =====
-- internal/runtime/firecracker
pub mod Protocol
pub mod RoundTrip
