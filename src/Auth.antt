-- ===== src/Auth.antt =====
-- internal/auth
pub mod Bootstrap
pub mod Tokens
pub mod OneTime
pub mod Login
pub mod Secrecy
