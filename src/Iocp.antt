-- ===== src/Iocp.antt =====
-- The scalable echo server over an I/O completion port, Samples/chapter06/iocpserver.cpp.
pub mod State
pub mod Pending
pub mod Accepts
pub mod Pools
pub mod Post
pub mod Drain
pub mod Handler
pub mod Args
pub mod Stats
pub mod Listener
mod Tests
