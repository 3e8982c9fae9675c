-- ===== src/Builder.antt =====
-- internal/runtime/functions/builder
pub mod Stream
pub mod Subscribed
pub mod Detect
pub mod Records
pub mod Run
pub mod Slots
pub mod OneRun
pub mod Streams
pub mod Reading
pub mod Final
