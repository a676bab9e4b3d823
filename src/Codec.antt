-- ===== src/Codec.antt =====
-- protocol/src/codec and protocol/src/error.rs: what encoders write and decoders read.
pub mod Outcome
pub mod Emit
pub mod ByteOrder
pub mod Laws
pub mod Local
pub mod Yields
pub mod Ints
pub mod Utf8
pub mod Strings
pub mod Vectors
pub mod Maps
pub mod Recursion
