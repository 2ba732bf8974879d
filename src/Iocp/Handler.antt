-- ===== src/Iocp/Handler.antt =====
-- `HandleIo` and `CompletionThread` of chapter06/iocpserver.cpp: what follows the completion of an
-- overlapped operation. `fuel` bounds the walk along the pending accepts and the loop over the
-- pending sends.
pub mod Queueing
pub mod Bounds
pub mod Flight
pub mod Echo
pub mod Failures
use network_programming_for.Base.{
  ℕ, Bool, true, false, List, [], ◌∷◌, ◌==◌, ◌&&◌, ◌||◌, if◌then◌else◌, null, increment, decrement,
  exchange_add, ltb,
}
use network_programming_for.Iocp.State.{
  Operation, accept, read, write, Server, Call, Answer, success, failure, set_buffer, set_socket,
  set_listen, record_call, count_call, is_success, invalid_socket,
}
use network_programming_for.Iocp.Pending.{enqueue_pending_operation}
use network_programming_for.Iocp.Accepts.{remove_pending_accept}
use network_programming_for.Iocp.Pools.{get_socket_obj, free_socket_obj, free_buffer_obj}
use network_programming_for.Iocp.Post.{post_recv}
use network_programming_for.Iocp.Drain.{process_pending_operations}

-- `InterlockedDecrement` of one counter, then a look at the other.
pub fail_read : Server → (sock : ℕ) → Server
fail_read g sock =
    let k = g.sockets sock in
    let k' = record k { outstanding_recv = decrement k.outstanding_recv } in
    if k'.outstanding_recv == 0 && k'.outstanding_send == 0
    then free_socket_obj (set_socket g sock k') sock
    else set_socket g sock k'

pub fail_write : Server → (sock : ℕ) → Server
fail_write g sock =
    let k = g.sockets sock in
    let k' = record k { outstanding_send = decrement k.outstanding_send } in
    if k'.outstanding_send == 0 && k'.outstanding_recv == 0
    then free_socket_obj (set_socket g sock k') sock
    else set_socket g sock k'

pub close_accepted : Server → (buf : ℕ) → Server
close_accepted g buf =
    let g₁ = record_call g (Call.close_socket (g.buffers buf).sclient) in
    set_buffer g₁ buf (record (g₁.buffers buf) { sclient = invalid_socket })

-- An operation failed: `key` is the listening object for an accept, the socket object otherwise.
pub fail_operation : Server → Operation → (key buf : ℕ) → Server
unfolding fail_read fail_write close_accepted
fail_operation g accept key buf = close_accepted g buf
fail_operation g read key buf = fail_read g key
fail_operation g write key buf = fail_write g key

pub handle_error : Server → (key buf : ℕ) → Server
unfolding fail_operation
handle_error g key buf = free_buffer_obj (fail_operation g (g.buffers buf).operation key buf) buf

-- The end of the handler for a socket: clean it up if it is closing and nothing is outstanding.
pub close_if_done : Server → (sock : ℕ) → Bool → Server
close_if_done g sock cleanup =
    let k = g.sockets sock in
    if cleanup || (k.outstanding_send == 0 && k.outstanding_recv == 0 && k.b_closing)
    then (let g₁ = record_call g (Call.close_socket k.s) in
        free_socket_obj (set_socket g₁ sock (record k { s = invalid_socket })) sock)
    else g

-- A completed operation becomes the send of what arrived.
pub queue_echo : Server → (sock buf bytes : ℕ) → Server
queue_echo g sock buf bytes =
    enqueue_pending_operation
      (set_buffer g buf (record (g.buffers buf) { buflen = bytes; sock = sock })) buf write

-- Bytes came in, or none: then the peer has closed, and the flag tells whether nothing is left.
pub handle_read : Server → (sock buf bytes : ℕ) → Server × Bool
handle_read g sock buf bytes =
    let k = g.sockets sock in
    let k' = record k { outstanding_recv = decrement k.outstanding_recv } in
    let g₁ = set_socket g sock k' in
    if ltb 0 bytes
    then (
      queue_echo
          (record g₁ {
            bytes_read = exchange_add g.bytes_read bytes;
            bytes_read_last = exchange_add g.bytes_read_last bytes;
          })
          sock buf bytes,
      false,
    )
    else (
      free_buffer_obj (set_socket g₁ sock (record k' { b_closing = true })) buf,
      k'.outstanding_send == 0 && k'.outstanding_recv == 0,
    )

module _ (api : ℕ → Answer) where
  pub handle_write : Server → (sock buf bytes : ℕ) → Server
  handle_write g sock buf bytes =
      let k = g.sockets sock in
      let k' = record k { outstanding_send = decrement k.outstanding_send } in
      let b = record (g.buffers buf) { buflen = g.buffer_size } in
      let g₁ = record g {
        buffers = (set_buffer g buf b).buffers;
        sockets = (set_socket g sock k').sockets;
        outstanding_sends = decrement g.outstanding_sends;
        bytes_sent = exchange_add g.bytes_sent bytes;
        bytes_sent_last = exchange_add g.bytes_sent_last bytes;
      } in
      if k'.b_closing
      then g₁
      else (post_recv api (set_buffer g₁ buf (record b { sock = sock })) sock buf).0

  -- The counters of an accept that has completed.
  pub count_accept : Server → (key bytes : ℕ) → Server
  count_accept g key bytes =
      let l = g.listens key in
      record (set_listen g key
        (record l { pending_accept_count = decrement l.pending_accept_count })) {
          connections = increment g.connections;
          connections_last = increment g.connections_last;
          bytes_read = exchange_add g.bytes_read bytes;
          bytes_read_last = exchange_add g.bytes_read_last bytes;
        }

  -- The listening thread is asked to post another accept.
  pub ask_repost : Server → (key : ℕ) → Server
  ask_repost g key =
      let l = g.listens key in
      let g₁ =
        set_listen g key
          (record l { repost_count = increment l.repost_count; repost_signaled = true }) in
      record_call g₁ (Call.set_event l.repost_accept)

  -- The flag is false where the handler returns at once.
  pub start_client : Server → (buf bytes clientobj : ℕ) → Server × Bool
  unfolding close_accepted
  start_client g buf bytes clientobj =
      if clientobj == null
      then (free_buffer_obj (close_accepted g buf) buf, true)
      else (let g₁ = count_call g (Call.associate (g.sockets clientobj).s) in
          if is_success (api g.calls)
          then (queue_echo g₁ clientobj buf bytes, true)
          else (g₁, false))

  pub handle_accept : (fuel : ℕ) → Server → (key buf bytes : ℕ) → Server × Bool
  unfolding count_accept ask_repost
  handle_accept fuel g key buf bytes =
      let g₁ = remove_pending_accept fuel (count_accept g key bytes) key buf in
      let (clientobj, g₂) =
        get_socket_obj api g₁ (g₁.buffers buf).sclient (g₁.listens key).address_family in
      let (g₃, goes_on) = start_client g₂ buf bytes clientobj in
      if goes_on then (ask_repost g₃ key, true) else (g₃, false)

  pub handle_success : (fuel : ℕ) → Server → Operation → (key buf bytes : ℕ) → Server
  handle_success fuel g accept key buf bytes =
      let (g₁, goes_on) = handle_accept fuel g key buf bytes in
      if goes_on then process_pending_operations api fuel g₁ else g₁
  handle_success fuel g read key buf bytes =
      let (g₁, cleanup) = handle_read g key buf bytes in
      close_if_done (process_pending_operations api fuel g₁) key cleanup
  handle_success fuel g write key buf bytes =
      close_if_done (process_pending_operations api fuel (handle_write g key buf bytes)) key false

  pub handle_io : (fuel : ℕ) → Server → (key buf bytes error : ℕ) → Server
  unfolding handle_success handle_error
  handle_io fuel g key buf bytes error =
      if error == 0
      then handle_success fuel g (g.buffers buf).operation key buf bytes
      else handle_error g key buf

-- One entry of the completion port, as `GetQueuedCompletionStatus` and, where that fails,
-- `WSAGetOverlappedResult` report it. What arrived stands in the memory of the buffer.
pub record Completion : Type 0 where
  pub key : ℕ
  pub buf : ℕ
  pub dequeued : Bool
  pub bytes : ℕ
  pub overlapped_result : Answer

-- The error of a failed dequeue is translated; a result that turns out fine has none.
pub completion_error : Completion → ℕ
completion_error c =
    if c.dequeued then 0 else elim c.overlapped_result [ success _ ↦ 0 | failure e ↦ e ]

-- The number of bytes, which the second call sets anew.
pub completion_bytes : Completion → ℕ
completion_bytes c =
    if c.dequeued then c.bytes else elim c.overlapped_result [ success n ↦ n | failure _ ↦ c.bytes ]

-- A round of the completion thread for each entry.
pub completion_thread : (ℕ → Answer) → (fuel : ℕ) → Server → List Completion → Server
unfolding handle_io completion_error completion_bytes
completion_thread api fuel g [] = g
completion_thread api fuel g (c ∷ cs) =
    completion_thread api fuel
      (handle_io api fuel g c.key c.buf (completion_bytes c) (completion_error c)) cs
