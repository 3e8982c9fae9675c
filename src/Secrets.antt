-- ===== src/Secrets.antt =====
-- internal/secrets: the cipher and the manager.
pub mod Cipher
pub mod Manager
pub mod Revealed
pub mod References
pub mod Resolved
