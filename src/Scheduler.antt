-- ===== src/Scheduler.antt =====
-- internal/scheduler
pub mod Place
pub mod Earliest
