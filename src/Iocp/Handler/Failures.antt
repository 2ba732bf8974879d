-- ===== src/Iocp/Handler/Failures.antt =====
-- Failed operations in `HandleIo` of chapter06/iocpserver.cpp: what is cleaned up, and what is not.
use network_programming_for.Base.{ℕ, zero, suc, ◌≡◌, ◌≢◌, refl, false, ◌∷◌, arith, signed_ltb}
use network_programming_for.Iocp.State.{accept, Server, Call, Answer}
use network_programming_for.Iocp.Pools.{free_buffer_obj}
use network_programming_for.Iocp.Drain.{drain_round, process_pending_operations}
use network_programming_for.Iocp.Handler.{handle_error, handle_io}

-- When an accept completes with an error, its socket is closed and its buffer goes to the free
-- list, while no listening object changes: neither the list of pending accepts nor its count.
pub failed_accept :
    (api : ℕ → Answer) (fuel : ℕ) (g : Server) (key buf bytes error : ℕ)
    → (g.buffers buf).operation ≡ accept
    → error ≢ 0
    → let h = handle_io api fuel g key buf bytes error in
      (h.free_buffer_list ≡ buf)
      × (h.trace ≡ Call.close_socket (g.buffers buf).sclient ∷ g.trace)
      × (h.listens ≡ g.listens)
unfolding handle_io handle_error free_buffer_obj
failed_accept api fuel g key buf bytes error op ne = ground arith

-- Once as many sends have failed as the limit allows, nothing is sent any more.
pub full_is_silent :
    (api : ℕ → Answer) (fuel : ℕ) (g : Server)
    → signed_ltb g.outstanding_sends g.max_sends ≡ false
    → process_pending_operations api fuel g ≡ g
unfolding process_pending_operations drain_round
full_is_silent api zero g full = refl
full_is_silent api (suc fuel) g full = rw (full, drain_round, process_pending_operations)
