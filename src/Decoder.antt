-- ===== src/Decoder.antt =====
-- crates/nexrad-decoder: the NEXRAD Level II message decoder.
pub mod Cursor
pub mod Float32
pub mod Headers
pub mod Product
pub mod Radial
pub mod Vcp
pub mod Stream
