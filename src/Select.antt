-- ===== src/Select.antt =====
-- The server with `select`, chapter05/nonblocking/server/nbserver.cpp.
pub mod State
pub mod Objects
pub mod Transfer
pub mod Loop
pub mod Main
mod Tests
