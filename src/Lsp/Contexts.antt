-- ===== src/Lsp/Contexts.antt =====
-- chapter12/LSP/sockinfo.cpp: the list of a provider's contexts and the counts of their users. What the
-- system keeps with a socket handle is an argument. `fuel` bounds the walks along a list.
pub mod Links
pub mod Removal
pub mod Release
use network_programming_for.Base.{
  ℕ, zero, suc, ◌+◌, Bool, true, false, List, [], ◌∷◌, ◌==◌, ◌&&◌, if◌then◌else◌, Option, none,
  some, null, update, increment, decrement,
}
use network_programming_for.Lsp.State.{
  SockInfo, LspWorld, LspCall, put_info, log_call, invalid_socket,
}

abbrev pub set_next : LspWorld → ℕ → ℕ → LspWorld
set_next g p n = put_info g p (record (g.infos p) { next = n })

abbrev pub set_prev : LspWorld → ℕ → ℕ → LspWorld
set_prev g p n = put_info g p (record (g.infos p) { prev = n })

abbrev pub set_head : LspWorld → (provider : ℕ) → ℕ → LspWorld
set_head g v p = record g { socket_list = update g.socket_list v p }

-- In front of the list. The test of the arguments comes after their use and is left out.
unfoldable pub insert_socket_info : LspWorld → (provider sock : ℕ) → LspWorld
insert_socket_info g v sock =
    let head = g.socket_list v in
    let g₁ = put_info g sock (record (g.infos sock) { next = head; prev = null }) in
    let g₂ = if head == null then g₁ else set_prev g₁ head sock in set_head g₂ v sock

unfoldable pub remove_socket_info : LspWorld → (provider sock : ℕ) → LspWorld
remove_socket_info g v sock =
    let i = g.infos sock in
    if i.prev == null
    then (let g₁ = set_head g v i.next in if i.next == null then g₁ else set_prev g₁ i.next null)
    else (let g₁ = set_next g i.prev i.next in
        if i.next == null then g₁ else set_prev g₁ i.next i.prev)

-- `inherit` is null, or the context whose window takes the messages. null: no memory.
unfoldable pub create_sock_info :
    LspWorld → (memory : Bool) → (provider provider_socket inherit : ℕ) → ℕ × LspWorld
unfolding insert_socket_info
create_sock_info g memory v s inherit =
    let p = g.heap_next in
    let wnd = if inherit == null then 0 else (g.infos inherit).h_wnd in
    let msg = if inherit == null then 0 else (g.infos inherit).u_msg in
    let fresh : SockInfo = record {
      provider_socket = s;
      layered_socket = 0;
      outstanding_async = 0;
      ref_count = 0;
      bytes_sent = 0;
      bytes_recv = 0;
      b_closing = false;
      provider = v;
      h_wnd = wnd;
      u_msg = msg;
      next = null;
      prev = null;
    } in
    if memory
    then (p, insert_socket_info (record (put_info g p fresh) { heap_next = p + 1 }) v p)
    else (null, g)

-- `context` is what `WPUQuerySocketHandleContext` finds, if it does.
unfoldable pub find_and_lock_socket_context : LspWorld → (context : Option ℕ) → ℕ × LspWorld
find_and_lock_socket_context g none = (null, g)
find_and_lock_socket_context g (some p) =
    (p, put_info g p (record (g.infos p) { ref_count = increment (g.infos p).ref_count }))

unfoldable pub unlock_socket_context : LspWorld → (context : ℕ) → LspWorld
unfolding remove_socket_info
unlock_socket_context g p =
    let i = g.infos p in
    let g₁ = put_info g p (record i { ref_count = decrement i.ref_count }) in
    if decrement i.ref_count == 0 && i.b_closing
    then (let g₂ =
          put_info (log_call g₁ (LspCall.close_layered i.layered_socket)) p
            (record (g₁.infos p) { layered_socket = invalid_socket }) in
        let g₃ = remove_socket_info g₂ i.provider p in record g₃ { freed = p ∷ g₃.freed })
    else g₁

-- The walk that closes every socket. The list itself stays.
unfoldable pub close_and_free : (fuel : ℕ) → LspWorld → (si : ℕ) → Option LspWorld
close_and_free zero g si = none
close_and_free (suc fuel) g si = elim (si == null) [
  | true ↦ some g
  | false ↦
      let i = g.infos si in
      let g₁ =
        log_call (log_call g (LspCall.set_linger i.provider_socket))
          (LspCall.close_below i.provider_socket) in
      let g₂ = log_call g₁ (LspCall.close_layered i.layered_socket) in
      close_and_free fuel (record g₂ { freed = si ∷ g₂.freed }) i.next
]

unfoldable pub close_and_free_socket_info : (fuel : ℕ) → LspWorld → (provider : ℕ) → Option LspWorld
close_and_free_socket_info fuel g v = close_and_free fuel g (g.socket_list v)

unfoldable pub search_list : (fuel : ℕ) → LspWorld → (si provider_sock : ℕ) → Option ℕ
search_list zero g si s = none
search_list (suc fuel) g si s = elim (si == null) [
  | true ↦ some null
  | false ↦ elim ((g.infos si).provider_socket == s) [
    | true ↦ some si
    | false ↦ search_list fuel g (g.infos si).next s
  ]
]

-- With the number of a provider, or through the providers from 0 up to `gLayerCount`.
unfoldable pub search_providers : (fuel : ℕ) → LspWorld → (count i provider_sock : ℕ) → Option ℕ
search_providers fuel g zero i s = some null
search_providers fuel g (suc count) i s = elim (search_list fuel g (g.socket_list i) s) [
  | none ↦ none
  | some si ↦ elim (si == null) [ true ↦ search_providers fuel g count (i + 1) s | false ↦ some si ]
]

unfoldable pub get_caller_socket :
    (fuel : ℕ)
    → LspWorld
    → (layer_count : ℕ) → (provider : Option ℕ) → (provider_sock : ℕ) → Option ℕ
get_caller_socket fuel g n (some v) s = search_list fuel g (g.socket_list v) s
get_caller_socket fuel g n none s = search_providers fuel g n 0 s
