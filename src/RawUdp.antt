-- ===== src/RawUdp.antt =====
-- The builder of raw UDP packets, Samples/chapter11/iphdrinc/rawudp.cpp.
pub mod Checksum
pub mod Headers
pub mod Udp
pub mod Fill
pub mod Args
pub mod Packets
mod Tests
