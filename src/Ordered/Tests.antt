-- ===== src/Ordered/Tests.antt =====
-- Runs of the server of chapter05/iocp/server/iocpserver.cpp, with the theorems at concrete worlds.
use mathlib.Core.List.Perm
use mathlib.Core.List.{Perm}
use network_programming_for.Base.{
  ℕ, ◌≡◌, refl, Bool, true, false, List, [], ◌∷◌, map, arith, ◌==◌, if◌then◌else◌, some,
}
use network_programming_for.Ordered.State.{
  Operation, accept, read, write, Answer, success, failure, Buffer, Socket, Request, World,
}
use network_programming_for.Ordered.Sends.{
  insert_by, send_in_order, io_order_of, pending, insert_pending_send, do_sends,
}
use network_programming_for.Ordered.Post.{post_send}
use network_programming_for.Ordered.Sends.Issued.{last_of, request_of, sends_of}
use network_programming_for.Ordered.Sends.Echo.{receive_all, echo_in_order}
use network_programming_for.Ordered.Sends.Failures.{failed_send-dangles}
use network_programming_for.Ordered.Handler.{handle_io}
use network_programming_for.Ordered.Handler.Accepts.{filled, connection-in_order}
use network_programming_for.Ordered.Handler.Receives.{receive_in_order-echoed}
use network_programming_for.Ordered.Handler.Failures.{datagram_error-closes}

-- Every call succeeds; every call fails for good; the first one alone succeeds.
abbrev all_good : ℕ → Answer
all_good n = success 77

abbrev all_bad : ℕ → Answer
all_bad n = failure 10054

abbrev once : ℕ → Answer
once n = if n == 0 then success 77 else failure 6

-- Objects 5, 6 and 7 are numbered 1, 2 and 0.
abbrev demo_order : ℕ → ℕ
demo_order p = if p == 5 then 1 else if p == 6 then 2 else 0

abbrev demo_buffer : Operation → ℕ → Buffer
demo_buffer op p = record {
  sclient = 40;
  memory = p ∷ 1 ∷ 2 ∷ 3 ∷ [];
  buflen = 4;
  operation = op;
  addr = 9;
  io_order = demo_order p;
}

abbrev demo_socket : List ℕ → Socket
demo_socket ps = record {
  s = 30;
  af = 2;
  b_closing = false;
  outstanding_ops = 1;
  last_send_issued = 0;
  io_count_issued = 3;
  out_of_order_sends = ps;
  freed = false;
}

abbrev demo : Bool → Operation → List ℕ → World
demo tcp op ps = record {
  is_tcp = tcp;
  buffer_size = 4;
  overlapped_count = 2;
  buffers = demo_buffer op;
  sockets = λ k. demo_socket ps;
  freed = [];
  heap_next = 10;
  bytes_read = 0;
  bytes_sent = 0;
  bytes_read_last = 0;
  bytes_sent_last = 0;
  calls = 0;
  trace = [];
}

-- Objects inserted out of order stand in the order of their numbers.
inserts :
    pending (insert_pending_send (insert_pending_send (demo true read []) 1 6) 1 5) 1 ≡ 5 ∷ 6 ∷ []
unfolding insert_pending_send insert_by
inserts = refl

-- The object that was next brings the ones behind it along.
sends :
    pending (do_sends all_good (insert_pending_send (demo true read (5 ∷ 6 ∷ [])) 1 7) 1).0 1 ≡ []
unfolding insert_pending_send do_sends insert_by send_in_order post_send
sends = refl

echo_in_order_example :
    (pending (receive_all all_good (demo true write []) 1 (5 ∷ 6 ∷ 7 ∷ [])) 1 ≡ [])
    × (last_of (receive_all all_good (demo true write []) 1 (5 ∷ 6 ∷ 7 ∷ [])) 1 ≡ 3)
    × (qs : List ℕ) × Perm qs (5 ∷ 6 ∷ 7 ∷ [])
    × (map demo_order qs ≡ 0 ∷ 1 ∷ 2 ∷ [])
    × ((receive_all all_good (demo true write []) 1 (5 ∷ 6 ∷ 7 ∷ [])).trace
        ≡ sends_of (request_of (demo true write []) 1) qs [])
echo_in_order_example =
    echo_in_order all_good (λ n. refl) (demo true write []) 1 (5 ∷ 6 ∷ 7 ∷ []) refl (omega arith)
      (Perm.trans (Perm.cons 1 (Perm.swap 0 2 [])) (Perm.swap 0 1 (2 ∷ [])))

-- The bytes that come in with a receive on each buffer.
abbrev incoming : ℕ → List ℕ
incoming q = q ∷ q ∷ []

connection-in_order_example :
    (h : World) × (handle_io all_good (demo true accept []) 1 2 3 0 ≡ some (h, true))
    × (pending (receive_all all_good (filled incoming h) 10 (15 ∷ 13 ∷ [])) 10 ≡ [])
    × ((receive_all all_good (filled incoming h) 10 (15 ∷ 13 ∷ [])).trace
        ≡ sends_of
            (λ q. Request.send 40 (incoming q) (if h.is_tcp then 0 else (h.buffers q).addr))
            (13 ∷ 15 ∷ [])
            h.trace)
connection-in_order_example =
    connection-in_order all_good (λ n. refl) all_good (demo true accept []) 1 2 3 incoming
      (15 ∷ 13 ∷ []) (λ n. refl) refl refl (omega arith) (Perm.swap 13 15 [])

receive_in_order-echoed_example :
    (h : World) × (handle_io all_good (demo true read []) 1 7 3 0 ≡ some (h, true))
    × (h.trace
        ≡ Request.recv 30 7
          ∷ Request.send 30 (7 ∷ 1 ∷ 2 ∷ []) 0
          ∷ Request.heap_alloc
          ∷ Request.heap_alloc
          ∷ [])
    × (pending h 1 ≡ [])
    × ((h.sockets 1).last_send_issued ≡ 1)
    × ((h.sockets 1).outstanding_ops ≡ 2)
    × (io_order_of h 7 ≡ 3)
receive_in_order-echoed_example =
    receive_in_order-echoed all_good (λ n. refl) (demo true read []) 1 7 3 refl refl (omega arith)
      (omega arith) refl refl refl (omega arith) (omega arith)

failed_send-dangles_example :
    let h = (do_sends all_bad (demo true write (7 ∷ 5 ∷ [])) 1).0 in
    ((do_sends all_bad (demo true write (7 ∷ 5 ∷ [])) 1).1 ≡ false)
    × (h.trace ≡ Request.send 30 (7 ∷ 1 ∷ 2 ∷ 3 ∷ []) 0 ∷ [])
    × (h.freed ≡ 7 ∷ [])
    × (pending h 1 ≡ 7 ∷ 5 ∷ [])
    × ((h.sockets 1).last_send_issued ≡ 1)
    × ((h.sockets 1).outstanding_ops ≡ 1)
failed_send-dangles_example =
    failed_send-dangles all_bad (demo true write (7 ∷ 5 ∷ [])) 1 7 (5 ∷ []) refl refl (omega arith)
      refl

datagram_error-closes_example :
    (h : World) × (handle_io all_good (demo false read []) 1 7 0 10054 ≡ some (h, true))
    × (h.trace ≡ Request.recv 30 7 ∷ [])
    × ((h.sockets 1).outstanding_ops ≡ 1)
    × ((h.sockets 1).b_closing ≡ true)
datagram_error-closes_example =
    datagram_error-closes all_good (demo false read []) 1 7 0 10054 refl refl refl refl refl
      (omega arith) (omega arith)
