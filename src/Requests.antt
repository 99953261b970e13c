-- ===== src/Requests.antt =====
-- The checks of requests.
pub mod Durations
