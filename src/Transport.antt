-- ===== src/Transport.antt =====
-- The wire protocol of a session: src/transport.rs.
pub mod Tlv
pub mod Errors
pub mod Frame
pub mod Noise
pub mod Session
pub mod Responder
pub mod Initiator
pub mod Delivery
