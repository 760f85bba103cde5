-- ===== src/Billing.antt =====
-- Billing, services/billing: subscriptions, and the transactional outbox with its relay.
pub mod Outbox
pub mod Subscriptions
pub mod Tests
