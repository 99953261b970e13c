-- ===== src/Orders/Validation.antt =====
-- order_validation.go: the checks of an order request.
pub mod Fields
pub mod Parts
pub mod Extras
pub mod Request
pub mod Accepted
