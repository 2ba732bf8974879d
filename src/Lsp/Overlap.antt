-- ===== src/Lsp/Overlap.antt =====
-- chapter12/LSP/overlap.cpp: the structures of overlapped operations, their pool and queue, and how an
-- operation starts and completes; WSPCloseSocket of chapter12/LSP/spi.cpp. Locks are left out.
pub mod State
pub mod Completion
pub mod Pool
pub mod Closing
pub mod Accounting
pub mod Counts
pub mod Settling
mod Tests
use network_programming_for.Base.{
  ℕ, zero, suc, ◌+◌, ◌-◌, Bool, true, false, List, [], ◌∷◌, ◌==◌, ◌&&◌, not, ◌||◌, if◌then◌else◌,
  Option, none, some, null, update, increment, decrement, u32,
}
use network_programming_for.Lsp.State.{SockInfo, LspWorld, LspCall, log_call, invalid_socket}
use network_programming_for.Lsp.Contexts.{
  remove_socket_info, find_and_lock_socket_context, unlock_socket_context,
}
use network_programming_for.Lsp.Overlap.State.{
  LspOp, OverlappedPlus, CallerOverlapped, Returned, OverlappedResult, LspSystem, OverlapCall,
  OverlapWorld, set_structure, set_overlapped, set_info, note, query_context,
}

-- `DEFAULT_POOL_COUNT`
abbrev pub default_pool_count : ℕ
default_pool_count = 100

-- `WSA_IO_PENDING` and `WSS_OPERATION_IN_PROGRESS`.
abbrev pub wsa_io_pending : ℕ
wsa_io_pending = 997

abbrev pub in_progress : ℕ
in_progress = 0x103

abbrev pub zeroed : OverlappedPlus
zeroed = record {
  provider = 0;
  sock_info = 0;
  caller_socket = 0;
  provider_socket = 0;
  error = 0;
  operation = LspOp.unknown;
  buffers = 0;
  flags = 0;
  bytes = 0;
  accept_socket = 0;
  thread_id = 0;
  caller_overlapped = 0;
  completion_routine = 0;
  next = null;
}

-- `for(i=0; i < DEFAULT_POOL_COUNT-1 ;i++) OverlappedPool[i].next = &OverlappedPool[i+1];` on the zeroed
-- structures from `p` on.
unfoldable pub link_pool : (left : ℕ) → (ℕ → OverlappedPlus) → (p : ℕ) → ℕ → OverlappedPlus
link_pool zero f p = update f p zeroed
link_pool (suc left) f p = link_pool left (update f p (record zeroed { next = p + 1 })) (p + 1)

-- The flag is false where there is no memory.
unfoldable pub allocate_free_pool : LspSystem → OverlapWorld → OverlapWorld × Bool
allocate_free_pool sys w =
    let g = record w { calls = w.calls + 1 } in
    if sys.memory w.calls
    then (
      record g {
        structures = link_pool (default_pool_count - 1) w.structures w.pool_next;
        free_pool = w.pool_next;
        pool_next = w.pool_next + default_pool_count;
      },
      true,
    )
    else (g, false)

-- The first free structure, zeroed.
abbrev pub pop_structure : OverlapWorld → ℕ × OverlapWorld
pop_structure w = (
  w.free_pool,
  set_structure (record w { free_pool = (w.structures w.free_pool).next }) w.free_pool zeroed,
)

-- null: no memory. The operation is counted in any case.
unfoldable pub get_overlapped_structure :
    LspSystem → OverlapWorld → (context : ℕ) → ℕ × OverlapWorld
get_overlapped_structure sys w p =
    let i = w.contexts.infos p in
    let w₁ = set_info w p (record i { outstanding_async = increment i.outstanding_async }) in
    if w₁.free_pool == null
    then (let (w₂, allocated) = allocate_free_pool sys w₁ in
        if allocated then pop_structure w₂ else (null, w₂))
    else pop_structure w₁

unfoldable pub putback_overlapped_structure : OverlapWorld → (olp : ℕ) → OverlapWorld
putback_overlapped_structure w p =
    record (set_structure w p (record zeroed { thread_id = 0xbadbeef; next = w.free_pool })) {
      free_pool = p;
    }

unfoldable pub set_overlapped_in_progress : OverlapWorld → (ol : ℕ) → OverlapWorld
set_overlapped_in_progress w o =
    set_overlapped w o (record (w.overlappeds o) { internal = in_progress; internal_high = 0 })

unfoldable pub enqueue_overlapped_operation : OverlapWorld → (op : ℕ) → OverlapWorld
enqueue_overlapped_operation w op =
    let w₁ = set_structure w op (record (w.structures op) { next = null }) in
    let w₂ =
      if w₁.pending_end == null
      then record w₁ { pending_start = op; pending_end = op }
      else record (set_structure w₁ w₁.pending_end
          (record (w₁.structures w₁.pending_end) { next = op })) { pending_end = op } in
    note w₂ OverlapCall.wakes_thread

unfoldable pub dequeue_overlapped_operation : OverlapWorld → ℕ × OverlapWorld
dequeue_overlapped_operation w =
    let op = w.pending_start in
    let w₁ = if op == null then w else record w { pending_start = (w.structures op).next } in
    (
      op,
      if op == w₁.pending_end then record w₁ { pending_start = null; pending_end = null } else w₁,
    )

-- `FindAndLockSocketContext` by handle.
unfoldable pub lock_context : LspSystem → OverlapWorld → (handle : ℕ) → ℕ × OverlapWorld
lock_context sys w s =
    let (p, g) = find_and_lock_socket_context w.contexts (query_context sys w s) in
    (p, record w { contexts = g })

abbrev pub unlock_context : OverlapWorld → (context : ℕ) → OverlapWorld
unlock_context w p = record w { contexts = unlock_socket_context w.contexts p }

-- The last operation of a socket that is closing has ended: the context `p` goes.
unfoldable pub release_context : OverlapWorld → (ol p : ℕ) → OverlapWorld
release_context w ol p =
    let q = (w.structures ol).sock_info in
    let g₁ = log_call w.contexts (LspCall.close_layered (w.structures ol).caller_socket) in
    let w₁ =
      set_info (record w { contexts = g₁ }) q
        (record (g₁.infos q) { layered_socket = invalid_socket }) in
    let g₂ = remove_socket_info w₁.contexts (w₁.contexts.infos q).provider q in
    set_structure (record w₁ { contexts = record g₂ { freed = p ∷ g₂.freed } }) ol
      (record (w.structures ol) { sock_info = null })

unfoldable pub check_for_context_cleanup : LspSystem → OverlapWorld → (ol : ℕ) → OverlapWorld
unfolding release_context
check_for_context_cleanup sys w ol =
    let (p, w₁) = lock_context sys w (w.structures ol).caller_socket in
    let q = (w.structures ol).sock_info in
    let i = w₁.contexts.infos q in
    let j = record i { outstanding_async = decrement i.outstanding_async } in
    let w₂ = set_info w₁ q j in
    if p == null
    then w₁
    else if j.b_closing && (j.outstanding_async == 0 && j.ref_count == 1)
    then release_context w₂ ol p
    else unlock_context w₂ p

-- Whether the provider below did it, and the error that the structure then holds. The extension
-- functions return a `BOOL`, and so, as it is read, does WSARecvMsg.
abbrev pub by_errno : Returned → (error : ℕ) → Bool × ℕ
by_errno r error = if r.ret == 0 then (true, error) else (false, r.error)

abbrev pub by_bool : Returned → (error : ℕ) → Bool × ℕ
by_bool r error = if r.ret == 0 then (false, r.last_error) else (true, error)

unfoldable pub outcome : LspOp → Returned → (error : ℕ) → Bool × ℕ
outcome LspOp.ioctl r error = by_errno r error
outcome LspOp.recv r error = by_errno r error
outcome LspOp.recv_from r error = by_errno r error
outcome LspOp.send r error = by_errno r error
outcome LspOp.send_to r error = by_errno r error
outcome LspOp.transmit_file r error = by_bool r error
outcome LspOp.accept_ex r error = by_bool r error
outcome LspOp.connect_ex r error = by_bool r error
outcome LspOp.disconnect_ex r error = by_bool r error
outcome LspOp.transmit_packets r error = by_bool r error
outcome LspOp.wsa_recv_msg r error = by_bool r error
outcome LspOp.unknown r error = (false, error)

-- Whether `lpdwFlags` and `lpdwBytes` are set.
abbrev pub has_flags : LspOp → Bool
has_flags LspOp.ioctl = false
has_flags LspOp.accept_ex = false
has_flags LspOp.connect_ex = false
has_flags LspOp.wsa_recv_msg = false
has_flags LspOp.unknown = false
has_flags other = true

abbrev pub has_bytes : LspOp → Bool
has_bytes LspOp.transmit_file = false
has_bytes LspOp.disconnect_ex = false
has_bytes LspOp.transmit_packets = false
has_bytes LspOp.unknown = false
has_bytes other = true

-- Whether the provider below is given the address of the flags.
abbrev pub stores_flags : LspOp → Bool
stores_flags LspOp.recv = true
stores_flags LspOp.recv_from = true
stores_flags other = false

abbrev pub is_known : LspOp → Bool
is_known LspOp.unknown = false
is_known other = true
