-- ===== src/Wire.antt =====
-- internal/wire: null-delimited fields and length-prefixed frames.
pub mod Fields
pub mod Frame
