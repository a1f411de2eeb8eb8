-- ===== src/Serial/RoundTrip.antt =====
-- What a producer serializes, the consumer deserializes.
mod Encoded
mod Decoded
pub mod Entry
