-- ===== src/Iocp/Handler/Echo.antt =====
-- The echo: what a receive that has completed makes `HandleIo` of chapter06/iocpserver.cpp send,
-- and the end of a connection.
use network_programming_for.Base.{
  ℕ, suc, ◌<◌, ◌≡◌, ◌≢◌, refl, ◌∙◌, ap₂, true, false, List, [], ◌∷◌, ◌++◌, arith, null, take,
  length, NotIn, lt→ltb, signed_ltb,
}
use network_programming_for.Iocp.State.{read, write, Server, Call, Answer, is_posted}
use network_programming_for.Iocp.Pending.{enqueue_pending_operation, unlink_head, uncount_pending}
use network_programming_for.Iocp.Post.{post_send}
use network_programming_for.Iocp.Pending.Fifo.{IsQueue, IsQueue-agree, enqueue-IsQueue}
use network_programming_for.Iocp.Drain.{process_pending_operations}
use network_programming_for.Iocp.Drain.Order.{
  Drained, process-Drained, send_of, sent, sent-trace, process_single,
}
use network_programming_for.Iocp.Handler.{
  close_if_done, handle_read, handle_success, handle_io, queue_echo,
}
use network_programming_for.Iocp.Handler.Queueing.{handle_read-SameGlobals}
use network_programming_for.Iocp.Handler.Flight.{handle_read_more, queue_echo-sockets}

queue_echo-IsQueue :
    (g : Server) (xs : List ℕ) (sock buf bytes : ℕ)
    → IsQueue g xs
    → buf ≢ null
    → NotIn buf xs
    → IsQueue (queue_echo g sock buf bytes) (xs ++ buf ∷ [])
unfolding queue_echo
queue_echo-IsQueue g xs sock buf bytes q live out =
    enqueue-IsQueue _ xs buf write (IsQueue-agree g _ buf xs out (λ r n. ground arith) refl refl q)
      live out

handle_read-IsQueue :
    (g : Server) (xs : List ℕ) (key buf bytes : ℕ)
    → IsQueue g xs
    → buf ≢ null
    → NotIn buf xs
    → 0 < bytes
    → IsQueue (handle_read g key buf bytes).0 (xs ++ buf ∷ [])
unfolding handle_read
handle_read-IsQueue g xs key buf bytes q live out h = rw (lt→ltb 0 bytes h) (
    queue_echo-IsQueue _ xs key buf bytes
      (record { chain = q.chain; at_end = q.at_end; distinct = q.distinct }) live out)

-- Joining the queue changes neither the data of a send nor where it goes.
enqueue-send_of :
    (g : Server) (obj : ℕ) → send_of (enqueue_pending_operation g obj write) obj ≡ send_of g obj
unfolding enqueue_pending_operation
enqueue-send_of g obj = ground arith

-- The queued send goes to the socket that the data came from, and consists of that data.
handle_read-send_of :
    (g : Server) (key buf bytes : ℕ)
    → 0 < bytes
    → send_of (handle_read g key buf bytes).0 buf
      ≡ Call.wsa_send (g.sockets key).s (take bytes (g.buffers buf).memory)
unfolding handle_read queue_echo
handle_read-send_of g key buf bytes h = rw (lt→ltb 0 bytes h, enqueue-send_of) (ground arith)

-- The data that came in is queued behind what waits already, for the socket that it came from, and
-- the queue is then worked off.
pub record Echoes (api : ℕ → Answer) (g : Server) (xs : List ℕ) (key buf bytes : ℕ) (h : Server)
    : Type 0 where
  pub queued : Server
  pub drained : Server
  pub echo :
      send_of queued buf ≡ Call.wsa_send (g.sockets key).s (take bytes (g.buffers buf).memory)
  pub same_trace : queued.trace ≡ g.trace
  pub works_off : Drained api queued (xs ++ buf ∷ []) drained
  pub closes : h ≡ close_if_done drained key false

-- A receive completes with at least one byte while the queue holds a list that its buffer is not
-- in: then the buffer joins the end of the queue as a send of exactly the bytes that arrived, on
-- the socket that they came from, nothing is asked of the system before, the queue is worked off
-- as ProcessPendingOperations does it, and at last the socket is looked at for cleanup.
pub handle_io-Echoes :
    (api : ℕ → Answer) (fuel : ℕ) (g : Server) (xs : List ℕ) (key buf bytes : ℕ)
    → (g.buffers buf).operation ≡ read
    → IsQueue g xs
    → buf ≢ null
    → NotIn buf xs
    → 0 < bytes
    → length (xs ++ buf ∷ []) < fuel
    → Echoes api g xs key buf bytes (handle_io api fuel g key buf bytes 0)
unfolding handle_io handle_success
handle_io-Echoes api fuel g xs key buf bytes op q live out h enough =
    let g₁ = (handle_read g key buf bytes).0 in
    record {
      queued = g₁;
      drained = process_pending_operations api fuel g₁;
      echo = handle_read-send_of g key buf bytes h;
      same_trace = (handle_read-SameGlobals g key buf bytes).trace;
      works_off =
          process-Drained api fuel g₁ (xs ++ buf ∷ [])
            (handle_read-IsQueue g xs key buf bytes q live out h) enough;
      closes = rw (op, handle_io, handle_success) (rw (handle_read_more g key buf bytes h));
    }

close-trace :
    (g : Server) (k : ℕ)
    → (g.sockets k).b_closing ≡ false
    → (close_if_done g k false).trace ≡ g.trace
unfolding close_if_done
close-trace g k alive = ground arith

sent-alive :
    (api : ℕ → Answer) (g : Server) (x k : ℕ)
    → ((sent api g x).sockets k).b_closing ≡ (g.sockets k).b_closing
unfolding post_send unlink_head uncount_pending
sent-alive api g x k = ground arith

handle_read-alive :
    (g : Server) (key buf bytes : ℕ)
    → 0 < bytes
    → ((handle_read g key buf bytes).0.sockets key).b_closing ≡ (g.sockets key).b_closing
unfolding handle_read
handle_read-alive g key buf bytes h = rw (lt→ltb 0 bytes h, queue_echo-sockets) (ground arith)

-- A receive completes with at least one byte, the socket is not closing, nothing waits in the
-- queue, fewer sends than the limit are outstanding and the system takes the next operation: then
-- HandleIo makes exactly one call of the system, WSASend on the same socket with exactly the bytes
-- that arrived.
pub handle_io_echo :
    (api : ℕ → Answer) (fuel : ℕ) (g : Server) (key buf bytes : ℕ)
    → (g.buffers buf).operation ≡ read
    → IsQueue g []
    → buf ≢ null
    → 0 < bytes
    → (g.sockets key).b_closing ≡ false
    → signed_ltb g.outstanding_sends g.max_sends ≡ true
    → is_posted (api g.calls) ≡ true
    → (handle_io api (suc fuel) g key buf bytes 0).trace
      ≡ Call.wsa_send (g.sockets key).s (take bytes (g.buffers buf).memory) ∷ g.trace
unfolding handle_io handle_success
handle_io_echo api fuel g key buf bytes op q live h alive room posted =
    let g₁ = (handle_read g key buf bytes).0 in
    let kept = handle_read-SameGlobals g key buf bytes in
    let single =
      process_single api fuel g₁ buf (handle_read-IsQueue g [] key buf bytes q live tt h)
        (rw (kept.config, kept.outstanding_sends) room) (rw kept.calls posted) in
    let still = sent-alive api g₁ buf key ∙ handle_read-alive g key buf bytes h ∙ alive in
    rw (op, handle_io, handle_success)
      (rw (handle_read_more g key buf bytes h, single)
        (close-trace (sent api g₁ buf) key still
          ∙ sent-trace api g₁ buf
          ∙ ap₂ ◌∷◌ (handle_read-send_of g key buf bytes h) kept.trace))
