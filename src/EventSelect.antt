-- ===== src/EventSelect.antt =====
-- The echo server of chapter05/WSAEventSelect/server/eventserver.cpp, which waits for the events of up
-- to 63 sockets in each of its threads.
pub mod State
pub mod Sending
pub mod Threads
pub mod Handler
pub mod Child
mod Tests
