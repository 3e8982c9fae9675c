-- ===== src/Logscan.antt =====
-- internal/events/logscan
pub mod Scanner
pub mod Followers
