-- ===== src/Stream.antt =====
-- internal/stream: subscriptions and the broker that publishes events to them.
pub mod Subscription
pub mod Selection
pub mod Operation
pub mod Projection
pub mod Queue
pub mod Batch
pub mod Envelope
pub mod Publish
pub mod Once
