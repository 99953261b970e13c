-- ===== src/Errors.antt =====
-- errcodes.go.
pub mod ErrCode
pub mod Classes
pub mod Tree
pub mod Retry
