-- ===== src/Lsp.antt =====
-- The layered service provider of chapter12/LSP: the contexts of its sockets (sockinfo.cpp), its
-- overlapped operations (overlap.cpp) and the closing of a socket (spi.cpp).
pub mod State
pub mod Contexts
pub mod Overlap
mod Tests
