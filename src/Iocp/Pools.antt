-- ===== src/Iocp/Pools.antt =====
-- The lookaside lists of buffers and of socket objects: `GetBufferObj`, `FreeBufferObj`,
-- `GetSocketObj` and `FreeSocketObj` of chapter06/iocpserver.cpp.
pub mod Reuse
use network_programming_for.Base.{
  ℕ, zero, suc, ◌+◌, false, List, [], ◌∷◌, ◌==◌, if◌then◌else◌, null, replicate, update,
}
use network_programming_for.Iocp.State.{
  Operation, Server, BufferObj, SocketObj, Call, Answer, success, failure, set_buffer, set_socket,
  record_call, count_call, sizeof_sockaddr_storage, invalid_socket,
}

-- `memset` to zero, of the first bytes.
unfoldable pub clear : ℕ → List ℕ → List ℕ
clear zero bytes = bytes
clear (suc n) [] = []
clear (suc n) (b ∷ bytes) = 0 ∷ clear n bytes

abbrev pub zeroed_buffer : List ℕ → BufferObj
zeroed_buffer memory = record {
  sclient = 0;
  post_accept = 0;
  memory = memory;
  buflen = 0;
  operation = Operation.accept;
  addrlen = 0;
  sock = null;
  next = null;
}

abbrev pub zeroed_socket : SocketObj
zeroed_socket = record {
  s = 0;
  af = 0;
  b_closing = false;
  outstanding_recv = 0;
  outstanding_send = 0;
  pending_send = 0;
  next = null;
}

module _ (api : ℕ → Answer) where
  -- `HeapAlloc`: an address that was never used, or null.
  unfoldable pub heap_alloc_zeroed : Server → ℕ × Server
  heap_alloc_zeroed g =
      let after = count_call g Call.heap_alloc in
      elim (api g.calls) [
        | success _ ↦ (g.heap_next, record after { heap_next = g.heap_next + 1 })
        | failure _ ↦ (null, after)
      ]

  -- The object from the lookaside list, or a new one with zeroed memory.
  unfoldable pub take_buffer : Server → ℕ → ℕ × Server
  unfolding heap_alloc_zeroed
  take_buffer g buflen =
      if g.free_buffer_list == null
      then (let (p, g₁) = heap_alloc_zeroed g in
          if p == null
          then (null, g₁)
          else (p, set_buffer g₁ p (zeroed_buffer (replicate buflen 0))))
      else (
        g.free_buffer_list,
        record g {
          buffers =
              update g.buffers g.free_buffer_list
                (record (g.buffers g.free_buffer_list) { next = null });
          free_buffer_list = (g.buffers g.free_buffer_list).next;
        },
      )

  unfoldable pub get_buffer_obj : Server → ℕ → ℕ × Server
  unfolding take_buffer
  get_buffer_obj g buflen =
      let (p, g₁) = take_buffer g buflen in
      if p == null then (null, g₁) else (
        p,
        set_buffer g₁ p
            (record (g₁.buffers p) { buflen = buflen; addrlen = sizeof_sockaddr_storage }),
      )

  unfoldable pub take_socket : Server → ℕ × Server
  unfolding heap_alloc_zeroed
  take_socket g =
      if g.free_socket_list == null
      then (let (p, g₁) = heap_alloc_zeroed g in
          if p == null then (null, g₁) else (p, set_socket g₁ p zeroed_socket))
      else (
        g.free_socket_list,
        record g {
          sockets =
              update g.sockets g.free_socket_list
                (record (g.sockets g.free_socket_list) { next = null });
          free_socket_list = (g.sockets g.free_socket_list).next;
        },
      )

  unfoldable pub get_socket_obj : Server → (s af : ℕ) → ℕ × Server
  unfolding take_socket
  get_socket_obj g s af =
      let (p, g₁) = take_socket g in
      if p == null
      then (null, g₁)
      else (p, set_socket g₁ p (record (g₁.sockets p) { s = s; af = af }))

unfoldable pub free_buffer_obj : Server → ℕ → Server
unfolding clear
free_buffer_obj g obj = record g {
  buffers =
      update g.buffers obj (record (zeroed_buffer (clear g.buffer_size (g.buffers obj).memory)) {
        next = g.free_buffer_list;
      });
  free_buffer_list = obj;
}

-- Closes the socket if that has not happened, and puts the object on the lookaside list.
unfoldable pub free_socket_obj : Server → ℕ → Server
free_socket_obj g obj =
    let g₁ =
      if (g.sockets obj).s == invalid_socket
      then g
      else record_call g (Call.close_socket (g.sockets obj).s) in
    record g₁ {
      sockets = update g₁.sockets obj (record zeroed_socket { next = g₁.free_socket_list });
      free_socket_list = obj;
    }
