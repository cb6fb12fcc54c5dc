-- ===== src/Bytes.antt =====
-- socket/bytearray.h, socket/bytearray.cpp and socket/endian.h: a growing byte buffer.
pub mod Chain
pub mod State
pub mod Capacity
pub mod Write
pub mod Read
pub mod RoundTrip
pub mod Rewound
pub mod Words
pub mod Varint
pub mod Zigzag
pub mod Strings
pub mod Buffers
pub mod Runs
