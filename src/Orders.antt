-- ===== src/Orders.antt =====
-- Orders: their data, and what the client checks of a request before it sends it.
pub mod Decimals
pub mod Types
pub mod Tags
pub mod Contract
pub mod Validation
pub mod Versions
pub mod Bracket
