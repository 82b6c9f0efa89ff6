-- ===== src/Protocol.antt =====
-- The messages between a client and the signaling server.
pub mod Message
pub mod Validate
pub mod Envelope
