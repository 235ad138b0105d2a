-- ===== src/Net.antt =====
-- The buffers of network/nw_buf.c, which sessions and servers send from.
pub mod Buf
pub mod Fifo
pub mod Queue
pub mod Pool
