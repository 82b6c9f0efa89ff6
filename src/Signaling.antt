-- ===== src/Signaling.antt =====
-- The signaling server: rooms, connections, and the handler of a connection.
pub mod Rooms
pub mod Connections
pub mod Server
pub mod Client
