-- ===== src/Iocp/Tests.antt =====
-- The theorems about chapter06/iocpserver.cpp at concrete servers, and runs of the model.
use network_programming_for.Base.{
  ℕ, ◌+◌, ◌≡◌, refl, true, false, List, [], ◌∷◌, none, arith, ◌==◌, if◌then◌else◌,
}
use network_programming_for.Iocp.State.{
  Operation, accept, read, write, Server, BufferObj, SocketObj, ListenObj, Call, Answer, success,
  failure,
}
use network_programming_for.Iocp.Pending.{enqueue_pending_operation, dequeue_pending_operation}
use network_programming_for.Iocp.Pending.Fifo.{IsQueue, enqueue-IsQueue, dequeue-IsQueue}
use network_programming_for.Iocp.Accepts.Lists.{IsPending}
use network_programming_for.Iocp.Drain.{process_pending_operations}
use network_programming_for.Iocp.Drain.Order.{Drained, process-Drained}
use network_programming_for.Iocp.Handler.{handle_io, Completion}
use network_programming_for.Iocp.Handler.Flight.{in_flight, handle_io-SameFlight}
use network_programming_for.Iocp.Handler.Echo.{handle_io_echo}
use network_programming_for.Iocp.Handler.Failures.{failed_accept}
use network_programming_for.Iocp.Args.{validate_args, ok, default_options}
use network_programming_for.Iocp.Listener.{wait_events, worker_count}
use network_programming_for.Iocp.Listener.Limits.{wait_events_full}

-- Every operation stays pending; every operation is refused.
abbrev pending : ℕ → Answer
pending n = failure 997

abbrev refusing : ℕ → Answer
refusing n = failure 10054

abbrev connected_long : ℕ → Answer
connected_long n = success 301

-- Buffer 2 belongs to socket object 1; the buffers 4 and 5 are linked.
abbrev buffer_at : Operation → ℕ → BufferObj
buffer_at op p = record {
  sclient = 70 + p;
  post_accept = 0;
  memory = b'h' ∷ b'i' ∷ b'!' ∷ [];
  buflen = 3;
  operation = op;
  addrlen = 128;
  sock = 1;
  next = if p == 4 then 5 else 0;
}

abbrev socket_at : ℕ → SocketObj
socket_at k = record {
  s = 50 + k;
  af = 2;
  b_closing = false;
  outstanding_recv = 1;
  outstanding_send = 0;
  pending_send = 0;
  next = 0;
}

abbrev listen_at : ℕ → ListenObj
listen_at l = record {
  s = 9;
  address_family = 2;
  pending_accepts = 4;
  pending_accept_count = 2;
  hi_water_mark = 0;
  lo_water_mark = 5;
  accept_event = 20;
  repost_accept = 21;
  repost_signaled = true;
  repost_count = 1;
  next = 0;
}

abbrev demo : Operation → Server
demo op = record {
  config = record {
    address_family = 2;
    buffer_size = 3;
    initial_accepts = 5;
    max_accepts = 500;
    max_receives = 200;
    max_sends = 2;
  };
  buffers = buffer_at op;
  sockets = socket_at;
  listens = listen_at;
  free_buffer_list = 0;
  free_socket_list = 0;
  pending_send_list = 0;
  pending_send_list_end = 0;
  bytes_read = 0;
  bytes_sent = 2000;
  start_time = 0;
  bytes_read_last = 0;
  bytes_sent_last = 2000;
  start_time_last = 0;
  connections = 1;
  connections_last = 1;
  outstanding_sends = 1;
  heap_next = 100;
  calls = 0;
  trace = [];
}

-- The same server with the buffers 4 and 5 in the queue of sends.
abbrev waiting : Server
waiting = record (demo write) { pending_send_list = 4; pending_send_list_end = 5 }

empty-IsQueue : (op : Operation) → IsQueue (demo op) []
empty-IsQueue op = record { chain = refl; at_end = refl; distinct = tt }

waiting-IsQueue : IsQueue waiting (4 ∷ 5 ∷ [])
waiting-IsQueue = record {
  chain = (refl, omega arith, (refl, omega arith, refl));
  at_end = refl;
  distinct = ((omega arith, tt), (tt, tt));
}

demo-IsPending : IsPending (demo accept) 7 (4 ∷ 5 ∷ [])
demo-IsPending = record {
  chain = (refl, omega arith, (refl, omega arith, refl));
  distinct = ((omega arith, tt), (tt, tt));
}

enqueue-IsQueue_example : IsQueue (enqueue_pending_operation waiting 2 write) (4 ∷ 5 ∷ 2 ∷ [])
enqueue-IsQueue_example =
    enqueue-IsQueue waiting (4 ∷ 5 ∷ []) 2 write waiting-IsQueue (omega arith) (omega arith)

dequeue-IsQueue_example :
    ((dequeue_pending_operation waiting write).0 ≡ 4)
    × IsQueue (dequeue_pending_operation waiting write).1 (5 ∷ [])
dequeue-IsQueue_example = dequeue-IsQueue waiting (4 ∷ 5 ∷ []) write waiting-IsQueue

process-Drained_example :
    Drained pending waiting (4 ∷ 5 ∷ []) (process_pending_operations pending 3 waiting)
process-Drained_example =
    process-Drained pending 3 waiting (4 ∷ 5 ∷ []) waiting-IsQueue (omega arith)

-- A send and then a receive complete on the same socket object.
abbrev two_completions : List Completion
two_completions =
    record { key = 1; buf = 2; dequeued = true; bytes = 3; overlapped_result = success 0 }
    ∷ record { key = 1; buf = 2; dequeued = true; bytes = 3; overlapped_result = success 0 }
    ∷ []

handle_io-SameFlight_example :
    (in_flight (handle_io pending 9 (demo read) 1 2 3 0) 1 ≡ in_flight (demo read) 1)
    × (((handle_io pending 9 (demo read) 1 2 3 0).sockets 1).b_closing ≡ false)
handle_io-SameFlight_example =
    handle_io-SameFlight pending (λ n. refl) 9 (demo read) 1 2 3 1 (λ e. cc) (omega arith) refl

handle_io_echo_example :
    (handle_io pending 9 (demo read) 1 2 3 0).trace
    ≡ Call.wsa_send 51 (b'h' ∷ b'i' ∷ b'!' ∷ []) ∷ []
handle_io_echo_example =
    handle_io_echo pending 8 (demo read) 1 2 3 refl (empty-IsQueue read) (omega arith) (omega arith)
      refl refl refl

failed_accept_example :
    ((handle_io pending 9 (demo accept) 7 4 0 64).free_buffer_list ≡ 4)
    × ((handle_io pending 9 (demo accept) 7 4 0 64).trace ≡ Call.close_socket 74 ∷ [])
    × ((handle_io pending 9 (demo accept) 7 4 0 64).listens ≡ listen_at)
failed_accept_example = failed_accept pending 9 (demo accept) 7 4 0 64 refl (omega arith)

abbrev port_line : List (List ℕ)
port_line = (b'x' ∷ []) ∷ (b'-' ∷ b'e' ∷ []) ∷ (b'7' ∷ []) ∷ []

port_parsed : validate_args port_line ≡ ok (record default_options { bind_port = b'7' ∷ [] })
unfolding validate_args
port_parsed = refl

abbrev many_threads : List ℕ
many_threads =
    1 ∷ 2 ∷ 3 ∷ 4 ∷ 5 ∷ 6 ∷ 7 ∷ 8 ∷ 9 ∷ 10 ∷ 11 ∷ 12 ∷ 13 ∷ 14 ∷ 15 ∷ 16 ∷ 17 ∷ 18 ∷ 19 ∷ 20 ∷ 21
    ∷ 22 ∷ 23 ∷ 24 ∷ 25 ∷ 26 ∷ 27 ∷ 28 ∷ 29 ∷ 30 ∷ 31 ∷ 32 ∷ []

wait_events_full_example : wait_events many_threads ((3, 4) ∷ []) ≡ none
unfolding worker_count
wait_events_full_example = wait_events_full 64 many_threads (3, 4) [] (omega arith) refl
