-- ===== src/Iocp/Post.antt =====
-- Posting overlapped operations: `PostRecv`, `PostSend` and `PostAccept` of
-- chapter06/iocpserver.cpp. The second component is the return value `NO_ERROR`.
use network_programming_for.Base.{ℕ, Bool, true, false, if◌then◌else◌, increment}
use network_programming_for.Iocp.State.{
  Operation, Server, Call, Answer, success, failure, set_buffer, set_socket, set_listen, count_call,
  is_posted, payload, invalid_socket,
}

abbrev pub mark : Server → ℕ → Operation → Server
mark g obj op = set_buffer g obj (record (g.buffers obj) { operation = op })

module _ (api : ℕ → Answer) where
  unfoldable pub post_recv : Server → (sock recvobj : ℕ) → Server × Bool
  post_recv g sock recvobj =
      let g₁ = mark g recvobj Operation.read in
      let g₂ = count_call g₁ (Call.wsa_recv (g₁.sockets sock).s recvobj) in
      if is_posted (api g.calls)
      then (
        set_socket g₂ sock (record (g₂.sockets sock) {
          outstanding_recv = increment (g₂.sockets sock).outstanding_recv;
        }),
        true,
      )
      else (g₂, false)

  unfoldable pub post_send : Server → (sock sendobj : ℕ) → Server × Bool
  post_send g sock sendobj =
      let g₁ = mark g sendobj Operation.write in
      let g₂ = count_call g₁ (Call.wsa_send (g₁.sockets sock).s (payload (g₁.buffers sendobj))) in
      if is_posted (api g.calls)
      then (
        record (set_socket g₂ sock (record (g₂.sockets sock) {
          outstanding_send = increment (g₂.sockets sock).outstanding_send;
        })) { outstanding_sends = increment g₂.outstanding_sends },
        true,
      )
      else (g₂, false)

  -- `socket` for the connection to come, then `AcceptEx`.
  unfoldable pub accept_with : Server → (listen acceptobj client : ℕ) → Server × Bool
  accept_with g listen acceptobj client =
      let g₁ = set_buffer g acceptobj (record (g.buffers acceptobj) { sclient = client }) in
      let g₂ = count_call g₁ (Call.accept_ex (g₁.listens listen).s client) in
      if is_posted (api g.calls)
      then (
        set_listen g₂ listen (record (g₂.listens listen) {
          pending_accept_count = increment (g₂.listens listen).pending_accept_count;
        }),
        true,
      )
      else (g₂, false)

  unfoldable pub post_accept : Server → (listen acceptobj : ℕ) → Server × Bool
  unfolding accept_with
  post_accept g listen acceptobj =
      let g₁ = mark g acceptobj Operation.accept in
      let g₂ = count_call g₁ (Call.open_socket (g₁.listens listen).address_family) in
      elim (api g.calls) [
        | success client ↦ accept_with g₂ listen acceptobj client
        | failure _ ↦ (
          set_buffer g₂ acceptobj (record (g₂.buffers acceptobj) { sclient = invalid_socket }),
          false,
        )
      ]
