-- ===== src/Streams.antt =====
-- order_handle.go and subscription.go.
pub mod OrderHandle
pub mod Subscription
