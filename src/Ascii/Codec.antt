-- ===== src/Ascii/Codec.antt =====
-- Encoder against decoder.
pub mod Header
pub mod Keyframe
pub mod Changes
pub mod Delta
pub mod Size
pub mod Outcome
pub mod RoundTrip
pub mod Hostile
mod Tests
