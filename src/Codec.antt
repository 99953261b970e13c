-- ===== src/Codec.antt =====
-- internal/codec: fields and classic bodies.
pub mod Numbers
pub mod Reader
pub mod Messages
pub mod Decoder
pub mod Decoders
pub mod Batch
pub mod Gives
pub mod Layouts
pub mod RoundTrip
