-- ===== src/Iocp/Pending.antt =====
-- The queue of sends that wait for a slot: `EnqueuePendingOperation` and `DequeuePendingOperation`
-- of chapter06/iocpserver.cpp. Both are only ever called with `gPendingSendList` and its end.
pub mod Fifo
pub mod Frames
use network_programming_for.Base.{ℕ, ◌==◌, if◌then◌else◌, update, null, increment, decrement}
use network_programming_for.Iocp.State.{
  Operation, Server, BufferObj, SocketObj, set_buffer, set_socket,
}

-- `InterlockedIncrement(&obj->sock->PendingSend)`, for a write.
unfoldable pub count_pending : Server → ℕ → Operation → Server
count_pending g obj Operation.accept = g
count_pending g obj Operation.read = g
count_pending g obj Operation.write =
    let k = (g.buffers obj).sock in
    set_socket g k (record (g.sockets k) { pending_send = increment (g.sockets k).pending_send })

unfoldable pub uncount_pending : Server → ℕ → Operation → Server
uncount_pending g obj Operation.accept = g
uncount_pending g obj Operation.read = g
uncount_pending g obj Operation.write =
    let k = (g.buffers obj).sock in
    set_socket g k (record (g.sockets k) { pending_send = decrement (g.sockets k).pending_send })

-- `if (*end) { (*end)->next = obj; *end = obj; } else { *head = *end = obj; }`
unfoldable pub link_end : Server → ℕ → Server
link_end g obj =
    if g.pending_send_list_end == null
    then record g { pending_send_list = obj; pending_send_list_end = obj }
    else record g {
      buffers =
          update g.buffers g.pending_send_list_end
            (record (g.buffers g.pending_send_list_end) { next = obj });
      pending_send_list_end = obj;
    }

unfoldable pub enqueue_pending_operation : Server → ℕ → Operation → Server
unfolding count_pending link_end
enqueue_pending_operation g obj op =
    let g₁ = count_pending g obj op in
    link_end (set_buffer g₁ obj (record (g₁.buffers obj) { next = null })) obj

-- The head of the queue leaves it; a queue that is now empty has no end.
unfoldable pub unlink_head : Server → ℕ → Server
unlink_head g obj = record g {
  pending_send_list = (g.buffers obj).next;
  pending_send_list_end = if (g.buffers obj).next == null then null else g.pending_send_list_end;
}

-- The object, null where the queue is empty, with the state that follows.
unfoldable pub dequeue_pending_operation : Server → Operation → ℕ × Server
unfolding unlink_head uncount_pending
dequeue_pending_operation g op = if g.pending_send_list == null then (null, g) else (
  g.pending_send_list,
  uncount_pending (unlink_head g g.pending_send_list) g.pending_send_list op,
)
