-- ===== src/Iocp/Handler/Flight.antt =====
-- One operation at a time: what `HandleIo` of chapter06/iocpserver.cpp does to the number of
-- operations that a socket has in flight, posted or waiting to be posted.
use network_programming_for.Base.{
  ℕ, zero, suc, ◌+◌, ◌<◌, ◌≡◌, refl, ◌≢◌, ◌∙◌, true, false, arith, u32, lt→ltb, update, increment,
}
use network_programming_for.Iocp.State.{Operation, accept, read, write, Server, Answer, is_posted}
use network_programming_for.Iocp.Pending.{enqueue_pending_operation, dequeue_pending_operation}
use network_programming_for.Iocp.Post.{post_recv, post_send}
use network_programming_for.Iocp.Drain.{
  Round, again, leave, drain_round, process_pending_operations,
}
use network_programming_for.Iocp.Drain.Limit.{state_of}
use network_programming_for.Iocp.Handler.{
  close_if_done, handle_read, handle_write, handle_success, handle_io, queue_echo,
}

-- Receives and sends that are posted, and sends that wait.
abbrev pub in_flight : Server → ℕ → ℕ
in_flight g k =
    u32
      ((g.sockets k).outstanding_recv + (g.sockets k).outstanding_send + (g.sockets k).pending_send)

-- What a socket has in flight and whether it is closing are as before.
abbrev pub SameFlight : Server → Server → ℕ → Type 0
SameFlight g h k =
    (in_flight h k ≡ in_flight g k) × ((h.sockets k).b_closing ≡ (g.sockets k).b_closing)

-- The system refuses no operation.
abbrev pub Accepts : (ℕ → Answer) → Type 0
Accepts api = (n : ℕ) → is_posted (api n) ≡ true

pub queue_echo-sockets :
    (g : Server) (sock buf bytes : ℕ)
    → (queue_echo g sock buf bytes).sockets
      ≡ update g.sockets sock
          (record (g.sockets sock) { pending_send = increment (g.sockets sock).pending_send })
unfolding queue_echo enqueue_pending_operation
queue_echo-sockets g sock buf bytes = ground arith

-- A receive with data asks for no cleanup.
pub handle_read_more :
    (g : Server) (key buf bytes : ℕ) → 0 < bytes → (handle_read g key buf bytes).1 ≡ false
unfolding handle_read
handle_read_more g key buf bytes h = rw (lt→ltb 0 bytes h)

module _ (api : ℕ → Answer) (accepts : Accepts api) where
  round-SameFlight : (g : Server) (k : ℕ) → SameFlight g (state_of (drain_round api g)) k
  unfolding drain_round post_send dequeue_pending_operation
  round-SameFlight g k = ground (arith, accepts g.calls)

  resume-SameFlight :
      (fuel : ℕ) (g : Server) (r : Round) (k : ℕ)
      → ((h : Server) → SameFlight h (process_pending_operations api fuel h) k)
      → SameFlight g (state_of r) k
      → SameFlight g (elim r [ again h ↦ process_pending_operations api fuel h | leave h ↦ h ]) k
  resume-SameFlight fuel g (again h) k ih e = ((ih h).0 ∙ e.0, (ih h).1 ∙ e.1)
  resume-SameFlight fuel g (leave h) k ih e = e

  process-SameFlight :
      (fuel : ℕ) (g : Server) (k : ℕ) → SameFlight g (process_pending_operations api fuel g) k
  unfolding process_pending_operations
  process-SameFlight zero g k = (refl, refl)
  process-SameFlight (suc fuel) g k =
      resume-SameFlight fuel g (drain_round api g) k (λ h. process-SameFlight fuel h k)
        (round-SameFlight g k)

  handle_read-SameFlight :
      (g : Server) (key buf bytes k : ℕ)
      → 0 < bytes
      → SameFlight g (handle_read g key buf bytes).0 k
  unfolding handle_read
  handle_read-SameFlight g key buf bytes k h =
      rw (lt→ltb 0 bytes h, queue_echo-sockets) (ground arith)

  handle_write-SameFlight :
      (g : Server) (key buf bytes k : ℕ)
      → (g.sockets key).b_closing ≡ false
      → SameFlight g (handle_write api g key buf bytes) k
  unfolding handle_write post_recv
  handle_write-SameFlight g key buf bytes k alive = ground (arith, accepts g.calls)

  close_open :
      (g : Server) (key : ℕ) → (g.sockets key).b_closing ≡ false → close_if_done g key false ≡ g
  unfolding close_if_done
  close_open g key alive = ground arith

  drained_open :
      (fuel : ℕ) (g h : Server) (key k : ℕ)
      → SameFlight g h k
      → SameFlight g h key
      → (g.sockets key).b_closing ≡ false
      → SameFlight g (close_if_done (process_pending_operations api fuel h) key false) k
  drained_open fuel g h key k e e' alive =
      let h' = process_pending_operations api fuel h in
      let still = (process-SameFlight fuel h key).1 ∙ e'.1 ∙ alive in
      rw (close_open h' key still)
        ((process-SameFlight fuel h k).0 ∙ e.0, (process-SameFlight fuel h k).1 ∙ e.1)

  handle_success-SameFlight :
      (fuel : ℕ) (g : Server) (op : Operation) (key buf bytes k : ℕ)
      → op ≢ accept
      → 0 < bytes
      → (g.sockets key).b_closing ≡ false
      → SameFlight g (handle_success api fuel g op key buf bytes) k
  unfolding handle_success
  handle_success-SameFlight fuel g accept key buf bytes k ne h alive = absurd (ne refl)
  handle_success-SameFlight fuel g read key buf bytes k ne h alive =
      rw (handle_read_more g key buf bytes h) (
        drained_open fuel g (handle_read g key buf bytes).0 key k
          (handle_read-SameFlight g key buf bytes k h)
          (handle_read-SameFlight g key buf bytes key h) alive)
  handle_success-SameFlight fuel g write key buf bytes k ne h alive =
      drained_open fuel g (handle_write api g key buf bytes) key k
        (handle_write-SameFlight g key buf bytes k alive)
        (handle_write-SameFlight g key buf bytes key alive) alive

  -- As long as the system refuses no operation, the handling of a receive or a send that completed
  -- with at least one byte, on a socket that is not closing, changes for no socket the number of
  -- operations in flight (posted receives, posted sends and queued sends together, modulo 2^32),
  -- nor whether it is closing.
  pub handle_io-SameFlight :
      (fuel : ℕ) (g : Server) (key buf bytes k : ℕ)
      → (g.buffers buf).operation ≢ accept
      → 0 < bytes
      → (g.sockets key).b_closing ≡ false
      → SameFlight g (handle_io api fuel g key buf bytes 0) k
  unfolding handle_io
  handle_io-SameFlight fuel g key buf bytes k ne h alive =
      handle_success-SameFlight fuel g (g.buffers buf).operation key buf bytes k ne h alive
