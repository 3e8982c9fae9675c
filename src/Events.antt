-- ===== src/Events.antt =====
-- internal/events: the bus, the dispatcher of event rules, and the delivery of webhooks.
pub mod Bus
pub mod Rules
pub mod Webhook
pub mod Attempts
pub mod Exhausted
pub mod Order
pub mod Listening
pub mod Firing
