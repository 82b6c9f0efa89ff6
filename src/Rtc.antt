-- ===== src/Rtc.antt =====
-- The client's connections to its peers.
pub mod Frame
pub mod Peer
pub mod Mesh
