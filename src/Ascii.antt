-- ===== src/Ascii.antt =====
-- internal/ascii: cells, the frame format, its encoder and decoder, the stabiliser.
pub mod Stabiliser
pub mod Cell
pub mod Frame
pub mod Encoder
pub mod Decoder
pub mod Codec
pub mod Renderer
pub mod Serialise
