-- ===== src/Protocol.antt =====
-- internal/protocol: the message vocabulary, the version gates and the message envelope.
pub mod Outbound
pub mod Inbound
pub mod Registry
pub mod Gates
pub mod Envelope
