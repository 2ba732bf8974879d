-- ===== src/Ordered/Handler.antt =====
-- `HandleIo` and `CompletionThread` of chapter05/iocp/server/iocpserver.cpp: what follows the
-- completion of an overlapped operation. none: the process has ended for want of memory.
pub mod Start
pub mod Others
pub mod Accepts
pub mod Receives
pub mod Failures
use network_programming_for.Base.{
  ℕ, zero, suc, Bool, true, false, List, [], ◌∷◌, ◌==◌, ◌&&◌, ◌||◌, if◌then◌else◌, Option, some,
  decrement, exchange_add, ltb, take, not, ◌^◌,
}
use network_programming_for.Ordered.State.{
  accept, read, write, Answer, invalid_socket, is_success, Request, World, set_buffer, set_socket,
  record_request, count_request, Operation,
}
use network_programming_for.Ordered.Objects.{
  ◌>>=◌, get_buffer_obj, get_socket_obj, free_buffer_obj, free_socket_obj,
}
use network_programming_for.Ordered.Post.{post_recv, post_send, post_accept}
use network_programming_for.Ordered.Sends.{pending, insert_pending_send, do_sends}
use network_programming_for.Iocp.Handler.{Completion, completion_error, completion_bytes}

abbrev pub is_empty : List ℕ → Bool
is_empty [] = true
is_empty (_ ∷ _) = false

-- The `int` count of a `for` loop from 0.
abbrev pub rounds : ℕ → ℕ
rounds n = if ltb n (2 ^ 31) then n else 0

-- `InterlockedDecrement(&sock->OutstandingOps)`
abbrev pub release_operation : World → ℕ → World
release_operation g k =
    set_socket g k
      (record (g.sockets k) { outstanding_ops = decrement (g.sockets k).outstanding_ops })

abbrev pub mark_closing : World → ℕ → World
mark_closing g k = set_socket g k (record (g.sockets k) { b_closing = true })

abbrev pub count_read : World → (bytes : ℕ) → World
count_read g n = record g {
  bytes_read = exchange_add g.bytes_read n;
  bytes_read_last = exchange_add g.bytes_read_last n;
}

-- `closesocket`, and then the object.
unfoldable pub close_socket_obj : World → ℕ → World
unfolding free_socket_obj
close_socket_obj g k =
    free_socket_obj
      (set_socket (record_request g (Request.close_socket (g.sockets k).s)) k
        (record (g.sockets k) { s = invalid_socket }))
      k

-- An operation of a TCP socket failed.
unfoldable pub fail_operation : World → (sock buf : ℕ) → World
fail_operation g k p =
    let g₁ = release_operation (free_buffer_obj g p) k in
    if (g₁.sockets k).outstanding_ops == 0 then free_socket_obj g₁ k else g₁

-- What follows for a client whose first send or receive was not posted.
unfoldable pub give_up_client : World → (client : ℕ) → World
unfolding close_socket_obj
give_up_client g c =
    if (g.sockets c).outstanding_ops == 0 then close_socket_obj g c else mark_closing g c

-- The object of the echo takes the memory, the number and the peer of the receive, which goes on
-- with the fresh memory.
abbrev pub swap_buffers : World → (buf sendobj bytes : ℕ) → World
swap_buffers g p q bytes =
    let b = g.buffers p in
    let s = g.buffers q in
    let peer = if g.is_tcp then s.addr else b.addr in
    let echoed = record s {
      addr = peer;
      memory = b.memory;
      buflen = bytes;
      io_order = b.io_order;
    } in
    set_buffer (set_buffer g q echoed) p (record b { memory = s.memory; buflen = g.buffer_size })

-- How the handler goes on after its branch: it returned, or `error` and `bCleanupSocket` are these.
pub data Outcome : Type 0 where
  returned : Outcome
  settled : (error cleanup : Bool) → Outcome

module _ (api : ℕ → Answer) where
  -- The first receives of a connection. The flag tells whether one was not posted.
  unfoldable pub post_receives : World → (client : ℕ) → ℕ → Option (World × Bool)
  post_receives g c zero = some (g, false)
  post_receives g c (suc n) = do
    (p, g₁) ← get_buffer_obj api g g.buffer_size
    elim (post_recv api g₁ c p).1 [
      | true ↦ post_receives (post_recv api g₁ c p).0 c n
      | false ↦ some (free_buffer_obj (post_recv api g₁ c p).0 p, true)
    ]

  -- The data that came with the accept goes back, and the accept is posted again.
  unfoldable pub echo_accepted : World → (sock buf client bytes : ℕ) → (error : Bool) → Option World
  unfolding give_up_client
  echo_accepted g k p c bytes error = do
    (q, g₁) ← get_buffer_obj api g bytes
    let copy = take bytes (g₁.buffers p).memory
    let g₂ = set_buffer g₁ q (record (g₁.buffers q) { memory = copy })
    let (g₃, posted) = post_send api g₂ c q
    (g₄, failed) ←
        if posted
        then post_receives g₃ c (rounds g.overlapped_count)
        else some (free_buffer_obj g₃ q, true)
    let g₅ = (post_accept api g₄ k p).0
    some (if error || failed then give_up_client g₅ c else g₅)

  unfoldable pub accept_completed :
      World → (sock buf bytes : ℕ) → (error : Bool) → Option (World × Outcome)
  accept_completed g k p bytes error = do
    let s = (g.buffers p).sclient
    (c, g₁) ← get_socket_obj api (count_read g bytes) s (g.sockets k).af
    let g₂ = count_request g₁ (Request.associate s)
    if is_success (api g₁.calls)
        then (echo_accepted g₂ k p c bytes error >>= λ h. some (h, settled false false))
        else some (g₂, returned)

  -- The next receive on a buffer, which is given up where that fails.
  unfoldable pub repost_receive : World → (sock buf : ℕ) → World × Bool
  repost_receive g k p =
      let (g₁, posted) = post_recv api g k p in
      if posted then (g₁, false) else (free_buffer_obj g₁ p, true)

  -- Bytes came in. The flag is the error.
  unfoldable pub echo_received : World → (sock buf bytes : ℕ) → Option (World × Bool)
  unfolding repost_receive
  echo_received g k p bytes = do
    (q, g₁) ← get_buffer_obj api (count_read g bytes) g.buffer_size
    let (g₂, sent) = do_sends api (insert_pending_send (swap_buffers g₁ p q bytes) k q) k
    some (if sent then repost_receive g₂ k p else (g₂, true))

  -- The peer has closed.
  unfoldable pub received_nothing : World → (sock buf : ℕ) → World × Outcome
  received_nothing g k p =
      let (g₁, sent) = do_sends api (free_buffer_obj (mark_closing g k) p) k in
      (g₁, settled (not sent) ((g₁.sockets k).outstanding_ops == 0 && is_empty (pending g₁ k)))

  unfoldable pub read_completed : World → (sock buf bytes : ℕ) → Option (World × Outcome)
  unfolding received_nothing
  read_completed g k p bytes =
      if ltb 0 bytes || not g.is_tcp
      then (do (g₁, error) ← echo_received g k p bytes; some (g₁, settled error false))
      else some (received_nothing g k p)

  unfoldable pub write_completed : World → (sock buf bytes : ℕ) → (error : Bool) → World × Outcome
  write_completed g k p bytes error =
      let counted = record g {
        bytes_sent = exchange_add g.bytes_sent bytes;
        bytes_sent_last = exchange_add g.bytes_sent_last bytes;
      } in
      let (g₁, sent) = do_sends api (free_buffer_obj counted p) k in
      (g₁, settled (error || not sent) false)

  -- The branches of the operations, under the lock of the socket.
  unfoldable pub operation_completed :
      World → Operation → (sock buf bytes : ℕ) → (error : Bool) → Option (World × Outcome)
  unfolding write_completed
  operation_completed g accept k p bytes error = accept_completed g k p bytes error
  operation_completed g read k p bytes error =
      if error
      then (if g.is_tcp
          then some (g, settled true false)
          else some ((post_recv api g k p).0, settled true false))
      else read_completed g k p bytes
  operation_completed g write k p bytes error = some (write_completed g k p bytes error)

  -- The operation no longer counts, and the flag tells whether the socket is to be cleaned up.
  unfoldable pub settle : World → (sock : ℕ) → (error cleanup : Bool) → World × Bool
  settle g k error cleanup =
      let g₁ = release_operation (if error then mark_closing g k else g) k in
      let o = g₁.sockets k in
      let (g₂, sent) = do_sends api g₁ k in
      if o.outstanding_ops == 0 && o.b_closing && is_empty o.out_of_order_sends
      then (g₁, true)
      else (g₂, cleanup || not sent)

  -- The flag is false where the handler returned inside the critical section of the socket.
  unfoldable pub conclude : World → (sock : ℕ) → Outcome → World × Bool
  unfolding settle
  conclude g k returned = (g, false)
  conclude g k (settled error cleanup) =
      let (g₁, closes) = settle g k error cleanup in
      (if closes then close_socket_obj g₁ k else g₁, true)

  unfoldable pub handle_io : World → (sock buf bytes error : ℕ) → Option (World × Bool)
  unfolding fail_operation operation_completed
  handle_io g k p bytes error =
      if not (error == 0) && g.is_tcp then some (fail_operation g k p, true) else (do
        (g₁, outcome) ← operation_completed g (g.buffers p).operation k p bytes (not (error == 0))
        some (conclude g₁ k outcome))

  -- The completions that one thread takes from the port. It may enter a critical section it holds.
  unfoldable pub completion_thread : World → List Completion → Option World
  unfolding handle_io
  completion_thread g [] = some g
  completion_thread g (c ∷ cs) = do
    (g₁, _) ← handle_io g c.key c.buf (completion_bytes c) (completion_error c)
    completion_thread g₁ cs
