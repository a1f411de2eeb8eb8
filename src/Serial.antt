-- ===== src/Serial.antt =====
-- Producer-side serialization (include/malc/impl/serialization.h) and its consumer-side inverse
-- (src/malc/serialization.c).
pub mod Values
pub mod Compress
pub mod Encode
pub mod Decode
pub mod Deserialize
pub mod Wire
pub mod RoundTrip
