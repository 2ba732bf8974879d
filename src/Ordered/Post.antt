-- ===== src/Ordered/Post.antt =====
-- `PostRecv`, `PostSend` and `PostAccept` of chapter05/iocp/server/iocpserver.cpp. The flag tells
-- whether the operation was posted.
use network_programming_for.Base.{
  ℕ, Bool, true, false, List, ◌==◌, if◌then◌else◌, take, increment, update,
}
use network_programming_for.Ordered.State.{
  accept, read, write, Answer, success, failure, invalid_socket, is_posted, Buffer, Request, World,
  set_buffer, set_socket, count_request,
}

-- The bytes of the `WSABUF`.
abbrev pub contents : Buffer → List ℕ
contents b = take b.buflen b.memory

-- `InterlockedIncrement(&sock->OutstandingOps)`
unfoldable pub count_operation : World → ℕ → World
count_operation g k =
    set_socket g k
      (record (g.sockets k) { outstanding_ops = increment (g.sockets k).outstanding_ops })

-- The order is given to the receive in any case.
unfoldable pub number_receive : World → (sock buf : ℕ) → World
number_receive g k p = record g {
  buffers =
      update g.buffers p
        (record (g.buffers p) { operation = read; io_order = (g.sockets k).io_count_issued });
  sockets =
      update g.sockets k
        (record (g.sockets k) { io_count_issued = increment (g.sockets k).io_count_issued });
}

unfoldable pub number_send : World → (sock buf : ℕ) → World
number_send g k p = record g {
  buffers = update g.buffers p (record (g.buffers p) { operation = write });
  sockets =
      update g.sockets k
        (record (g.sockets k) { last_send_issued = increment (g.sockets k).last_send_issued });
}

module _ (api : ℕ → Answer) where
  unfoldable pub post_recv : World → (sock buf : ℕ) → World × Bool
  unfolding number_receive count_operation
  post_recv g k p =
      let g₁ = count_request (number_receive g k p) (Request.recv (g.sockets k).s p) in
      if is_posted (api g.calls) then (count_operation g₁ k, true) else (g₁, false)

  -- `WSASend`, or `WSASendTo` with the address of the object.
  unfoldable pub post_send : World → (sock buf : ℕ) → World × Bool
  unfolding number_send count_operation
  post_send g k p =
      let b = g.buffers p in
      let peer = if g.is_tcp then 0 else b.addr in
      let g₁ = count_request (number_send g k p) (Request.send (g.sockets k).s (contents b) peer) in
      if is_posted (api g.calls) then (count_operation g₁ k, true) else (g₁, false)

  -- A socket for the client, and the accept on it.
  unfoldable pub post_accept : World → (sock buf : ℕ) → World × Bool
  unfolding count_operation
  post_accept g k p =
      let opened = count_request g (Request.open_socket (g.sockets k).af) in
      let handle : ℕ = elim (api g.calls) [ success h ↦ h | failure _ ↦ invalid_socket ] in
      let g₁ =
        set_buffer opened p (record (g.buffers p) { operation = accept; sclient = handle }) in
      let g₂ = count_request g₁ (Request.accept_ex (g.sockets k).s handle p) in
      if handle == invalid_socket
      then (g₁, false)
      else if is_posted (api g₁.calls)
      then (count_operation g₂ k, true)
      else (g₂, false)
