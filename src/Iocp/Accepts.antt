-- ===== src/Iocp/Accepts.antt =====
-- The list of accepts that are posted on a listening socket: `InsertPendingAccept` and
-- `RemovePendingAccept` of chapter06/iocpserver.cpp.
pub mod Lists
use network_programming_for.Base.{ℕ, zero, suc, true, false, ◌==◌, if◌then◌else◌, ◌||◌, null}
use network_programming_for.Iocp.State.{Server, BufferObj, set_buffer, set_listen}

unfoldable pub insert_pending_accept : Server → ℕ → ℕ → Server
insert_pending_accept g listenobj obj =
    let g₁ = set_buffer g obj (record (g.buffers obj) { next = null }) in
    let l = g₁.listens listenobj in
    if l.pending_accepts == null
    then set_listen g₁ listenobj (record l { pending_accepts = obj })
    else set_listen (set_buffer g₁ obj (record (g₁.buffers obj) { next = l.pending_accepts }))
        listenobj (record l { pending_accepts = obj })

-- `while (ptr && ptr != obj) { prev = ptr; ptr = ptr->next; }` on fuel, and the value of `prev`.
unfoldable pub search_prev : ℕ → (ℕ → BufferObj) → (prev ptr obj : ℕ) → ℕ
search_prev zero h prev ptr obj = prev
search_prev (suc fuel) h prev ptr obj = elim (ptr == null || ptr == obj) [
  | true ↦ prev
  | false ↦ search_prev fuel h ptr (h ptr).next obj
]

-- `fuel` bounds the length of the list.
unfoldable pub remove_pending_accept : (fuel : ℕ) → Server → (listenobj obj : ℕ) → Server
unfolding search_prev
remove_pending_accept fuel g listenobj obj =
    let l = g.listens listenobj in
    let prev = search_prev fuel g.buffers null l.pending_accepts obj in
    if prev == null
    then set_listen g listenobj (record l { pending_accepts = (g.buffers obj).next })
    else set_buffer g prev (record (g.buffers prev) { next = (g.buffers obj).next })
