-- ===== src/Iocp/Handler/Bounds.antt =====
-- The limit on outstanding sends, from completion to completion: `HandleIo` and `CompletionThread`
-- of chapter06/iocpserver.cpp.
use network_programming_for.Base.{ℕ, ◌≡◌, arith}
use network_programming_for.Iocp.State.{Operation, accept, read, write, Server}
use network_programming_for.Iocp.Pending.{enqueue_pending_operation}
use network_programming_for.Iocp.Pools.{free_socket_obj}

-- Neither the limit nor the number of outstanding sends has changed.
abbrev SameSends : Server → Server → Type 0
SameSends g h = (h.config ≡ g.config) × (h.outstanding_sends ≡ g.outstanding_sends)

free_socket-SameSends : (g : Server) (k : ℕ) → SameSends g (free_socket_obj g k)
unfolding free_socket_obj
free_socket-SameSends g k = ground arith

enqueue-SameSends :
    (g : Server) (b : ℕ) (op : Operation) → SameSends g (enqueue_pending_operation g b op)
unfolding enqueue_pending_operation
enqueue-SameSends g b accept = ground arith
enqueue-SameSends g b read = ground arith
enqueue-SameSends g b write = ground arith
