-- ===== src/Field/SixBit.antt =====
-- The 6-bit ASCII codec: the bytes that four characters are packed into, and the text read back.
pub mod Pack
pub mod Unpack
pub mod RoundTrip
pub mod Spaces
