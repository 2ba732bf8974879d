-- ===== src/Select/Objects.antt =====
-- The buffers, the socket objects and the list of them in chapter05/nonblocking/server/nbserver.cpp.
pub mod Links
pub mod Removal
use network_programming_for.Base.{
  ℕ, ◌+◌, ◌-◌, Bool, true, false, List, [], ◌∷◌, ◌++◌, ◌==◌, if◌then◌else◌, null, replicate,
}
use network_programming_for.Select.State.{
  NbBuffer, NbSocket, NbSystem, NbWorld, put_socket, Flow, going, exited,
}

-- The object and its bytes, both zeroed; the process ends where there is no memory for one of them.
unfoldable pub get_buffer_obj : NbSystem → NbWorld → (buflen : ℕ) → Flow (NbWorld × NbBuffer)
get_buffer_obj sys g n =
    let b : NbBuffer = record { memory = replicate n 0; buflen = n; addr = 0 } in
    if sys.memory g.calls
    then (if sys.memory (g.calls + 1) then going (record g { calls = g.calls + 2 }, b) else exited)
    else exited

-- A new object at the next address.
unfoldable pub get_socket_obj :
    NbSystem → NbWorld → (s : ℕ) → (listening : Bool) → Flow (NbWorld × ℕ)
get_socket_obj sys g s listening =
    let fresh : NbSocket = record {
      s = s;
      listening = listening;
      closing = false;
      addr = 0;
      pending = [];
      next = null;
      prev = null;
    } in
    if sys.memory g.calls
    then going (
      record (put_socket g g.heap_next fresh) { heap_next = g.heap_next + 1; calls = g.calls + 1 },
      g.heap_next,
    )
    else exited

-- Its buffers go with it.
unfoldable pub free_socket_obj : NbWorld → (sock : ℕ) → NbWorld
free_socket_obj g k = record g { freed = k ∷ g.freed }

abbrev pub set_next : NbWorld → ℕ → ℕ → NbWorld
set_next g p n = put_socket g p (record (g.sockets p) { next = n })

abbrev pub set_prev : NbWorld → ℕ → ℕ → NbWorld
set_prev g p n = put_socket g p (record (g.sockets p) { prev = n })

-- At the end of the list.
unfoldable pub insert_socket_obj : NbWorld → (sock : ℕ) → NbWorld
insert_socket_obj g k =
    let g₁ = put_socket g k (record (g.sockets k) { next = null; prev = null }) in
    let g₂ =
      if g₁.socket_list == null
      then record g₁ { socket_list = k; socket_list_end = k }
      else record (set_next (set_prev g₁ k g₁.socket_list_end) g₁.socket_list_end k) {
        socket_list_end = k;
      } in
    record g₂ { socket_count = g₂.socket_count + 1 }

unfoldable pub remove_socket_obj : NbWorld → (sock : ℕ) → NbWorld
remove_socket_obj g k =
    let before = (g.sockets k).prev in
    let behind = (g.sockets k).next in
    let g₁ = if before == null then g else set_next g before behind in
    let g₂ = if behind == null then g₁ else set_prev g₁ behind before in
    record g₂ {
      socket_list = if g.socket_list == k then behind else g.socket_list;
      socket_list_end = if g.socket_list_end == k then before else g.socket_list_end;
      socket_count = g.socket_count - 1;
    }

unfoldable pub enqueue_buffer_obj : List NbBuffer → NbBuffer → (at_head : Bool) → List NbBuffer
enqueue_buffer_obj [] obj at_head = obj ∷ []
enqueue_buffer_obj (b ∷ queue) obj at_head =
    if at_head then obj ∷ b ∷ queue else b ∷ (queue ++ obj ∷ [])
