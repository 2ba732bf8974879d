-- ===== src/Ordered.antt =====
-- The echo server of chapter05/iocp/server/iocpserver.cpp, which keeps several receives posted on a
-- socket and echoes what arrives in the order in which the receives were posted.
pub mod State
pub mod Objects
pub mod Post
pub mod Sends
pub mod Handler
mod Tests
