-- ===== src/Wire.antt =====
-- The wire formats of utils/: numbers and strings in a buffer, and the packets of the RPC.
pub mod Bytes
pub mod Pack
pub mod Varint
pub mod Push
pub mod Trips
pub mod Pushes
pub mod Signs
pub mod Ints
pub mod Crc
pub mod Rpc
pub mod Packets
