-- ===== src/Turn.antt =====
-- The TURN relay.
pub mod Quota
pub mod Server
