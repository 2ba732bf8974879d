-- ===== src/Lsp/Overlap/Completion.antt =====
-- How an overlapped operation of chapter12/LSP/overlap.cpp starts and completes, and WSPCloseSocket of
-- chapter12/LSP/spi.cpp.
use network_programming_for.Base.{
  ℕ, ◌+◌, ◌-◌, ◌%◌, Bool, true, false, ◌∷◌, ◌==◌, not, ◌||◌, if◌then◌else◌, Option, none, some,
  null, u32,
}
use network_programming_for.Lsp.State.{LspCall, log_call, invalid_socket}
use network_programming_for.Lsp.Contexts.{remove_socket_info}
use network_programming_for.Lsp.Overlap.State.{
  LspOp, Returned, OverlappedResult, LspSystem, OverlapCall, OverlapWorld, set_structure,
  set_overlapped, set_info, note,
}
use network_programming_for.Lsp.Overlap.{
  wsa_io_pending, putback_overlapped_structure, set_overlapped_in_progress,
  enqueue_overlapped_operation, lock_context, unlock_context, check_for_context_cleanup, outcome,
  has_flags, has_bytes, stores_flags, is_known,
}

-- `ResetEvent` of the event without its last bit, where there is one.
abbrev pub reset_event : OverlapWorld → (overlapped : ℕ) → OverlapWorld
reset_event w o =
    let event = (w.overlappeds o).h_event in
    if event == 0 then w else note w (OverlapCall.resets_event (event - event % 2))

-- The operation failed at once: the caller's OVERLAPPED says so, and the structure goes back.
unfoldable pub fail_at_once : LspSystem → OverlapWorld → (ol : ℕ) → OverlapWorld
fail_at_once sys w ol =
    let s = w.structures ol in
    let o = w.overlappeds s.caller_overlapped in
    let w₁ = set_overlapped w s.caller_overlapped (record o {
      offset = s.error;
      offset_high = if has_flags s.operation then s.flags else 0;
      internal_high = if has_bytes s.operation then s.bytes else 0;
    }) in
    putback_overlapped_structure (check_for_context_cleanup sys w₁ ol) ol

-- The end of the function, with whether the call succeeded and the error that the structure holds.
unfoldable pub conclude_start :
    LspSystem
    → OverlapWorld
    → (ol : ℕ) → (succeeded : Bool) → (error : ℕ) → (synchronous : Bool) → ℕ × OverlapWorld
unfolding fail_at_once
conclude_start sys w ol succeeded error synchronous =
    if succeeded
    then (if synchronous then (0, w) else (wsa_io_pending, w))
    else (error, if error == wsa_io_pending then w else fail_at_once sys w ol)

-- The provider below is called, and stores the error, and the bytes and flags where it has their addresses.
abbrev pub start_operation :
    LspSystem → OverlapWorld → (ol : ℕ) → Returned → (error : ℕ) → OverlapWorld
start_operation sys w ol r error =
    let s = w.structures ol in
    set_structure
      (note (record w { calls = w.calls + 1 }) (OverlapCall.starts s.operation s.provider_socket))
      ol
      (record s {
        error = error;
        bytes = if has_bytes s.operation then r.bytes else s.bytes;
        flags = if stores_flags s.operation then r.flags else s.flags;
      })

-- The result is the error code that the function returns.
unfoldable pub execute_overlapped_operation :
    LspSystem → OverlapWorld → (ol : ℕ) → (synchronous : Bool) → ℕ × OverlapWorld
unfolding conclude_start outcome
execute_overlapped_operation sys w ol synchronous =
    let s = w.structures ol in
    let w₁ = reset_event w s.caller_overlapped in
    let r = sys.operate w₁.calls s.operation in
    let (succeeded, error) = outcome s.operation r s.error in
    let w₂ = if is_known s.operation then start_operation sys w₁ ol r error else w₁ in
    conclude_start sys w₂ ol succeeded error synchronous

-- `synchronous`: the provider socket could not be associated with the completion port because of its
-- options. The association itself is left out.
unfoldable pub queue_overlapped_operation :
    LspSystem → OverlapWorld → (ol : ℕ) → (synchronous : Bool) → ℕ × OverlapWorld
queue_overlapped_operation sys w ol synchronous =
    let w₁ = set_overlapped_in_progress w (w.structures ol).caller_overlapped in
    if w.has_iocp
    then execute_overlapped_operation sys w₁ ol synchronous
    else (wsa_io_pending, enqueue_overlapped_operation w₁ ol)

-- `FreeBuffer`: only without a completion port was the array copied.
abbrev pub free_buffer : OverlapWorld → (buffers : ℕ) → OverlapWorld
free_buffer w b = if w.has_iocp then w else note w (OverlapCall.frees_buffer b)

abbrev pub count_received : OverlapWorld → (context transferred : ℕ) → OverlapWorld
count_received w p n =
    let i = w.contexts.infos p in set_info w p (record i { bytes_recv = u32 (i.bytes_recv + n) })

abbrev pub count_sent : OverlapWorld → (context transferred : ℕ) → OverlapWorld
count_sent w p n =
    let i = w.contexts.infos p in set_info w p (record i { bytes_sent = u32 (i.bytes_sent + n) })

-- The bytes of an accept are counted at the socket that was accepted; none: it has no context, and
-- a null pointer is read.
unfoldable pub count_accepted :
    LspSystem → OverlapWorld → (accept_socket transferred : ℕ) → Option OverlapWorld
count_accepted sys w s n =
    let (a, w₁) = lock_context sys w s in
    if a == null then none else some (unlock_context (count_received w₁ a n) a)

unfoldable pub count_bytes : OverlapWorld → (ol context transferred : ℕ) → LspOp → OverlapWorld
count_bytes w ol p n LspOp.recv = free_buffer (count_received w p n) (w.structures ol).buffers
count_bytes w ol p n LspOp.recv_from = free_buffer (count_received w p n) (w.structures ol).buffers
count_bytes w ol p n LspOp.send = free_buffer (count_sent w p n) (w.structures ol).buffers
count_bytes w ol p n LspOp.send_to = free_buffer (count_sent w p n) (w.structures ol).buffers
count_bytes w ol p n LspOp.transmit_file = count_sent w p n
count_bytes w ol p n other = w

unfoldable pub count_operation :
    LspSystem → OverlapWorld → (ol context transferred : ℕ) → LspOp → Option OverlapWorld
unfolding count_accepted
count_operation sys w ol p n LspOp.accept_ex =
    count_accepted sys w (w.structures ol).accept_socket n
count_operation sys w ol p n other = some (count_bytes w ol p n other)

-- A completion routine of the caller is queued; otherwise the request is completed.
unfoldable pub notify_caller : OverlapWorld → (ol error transferred : ℕ) → OverlapWorld
notify_caller w ol error n =
    let s = w.structures ol in
    let o = s.caller_overlapped in
    if s.completion_routine == 0
    then note w (OverlapCall.completes s.caller_socket o error n)
    else note (set_overlapped w o (record (w.overlappeds o) { internal = s.completion_routine }))
        (OverlapCall.queues_apc s.thread_id o)

-- What follows the counting: the context is unlocked, the caller is told, and the structure goes back.
unfoldable pub settle :
    LspSystem → (ol context : ℕ) → OverlappedResult → OverlapWorld → OverlapWorld
unfolding notify_caller
settle sys ol p r w =
    let w₁ = notify_caller (unlock_context w p) ol r.result_error r.transferred in
    putback_overlapped_structure (check_for_context_cleanup sys w₁ ol) ol

-- The context was found: the results are stored, counted and passed on.
unfoldable pub complete_operation :
    LspSystem → OverlapWorld → (ol context : ℕ) → OverlappedResult → Option OverlapWorld
unfolding count_operation settle
complete_operation sys w ol p r =
    let s = w.structures ol in
    let o = record (w.overlappeds s.caller_overlapped) {
      offset = r.result_error;
      offset_high = r.result_flags;
      internal_high = r.transferred;
    } in
    let w₁ = set_overlapped w s.caller_overlapped o in
    let counted =
      if r.result_error == 0
      then count_operation sys w₁ ol p r.transferred s.operation
      else some w₁ in
    elim counted [ none ↦ none | some w₂ ↦ some (settle sys ol p r w₂) ]

-- With the error of the completion, which is WSA_IO_PENDING where the result is still to be asked for.
unfoldable pub intermediate_completion_routine :
    LspSystem → OverlapWorld → (ol : ℕ) → OverlappedResult → Option OverlapWorld
unfolding complete_operation
intermediate_completion_routine sys w ol given =
    if ol == null
    then some w
    else (let (p, w₁) = lock_context sys w (w.structures ol).caller_socket in
        if p == null
        then some (putback_overlapped_structure w₁ ol)
        else (if given.result_error == wsa_io_pending
            then complete_operation sys (record w₁ { calls = w₁.calls + 1 }) ol p
                (sys.result w₁.calls)
            else complete_operation sys w₁ ol p given))

-- WSPCloseSocket. The result is whether it returned NO_ERROR.
unfoldable pub wsp_close_socket : LspSystem → OverlapWorld → (s : ℕ) → Bool × OverlapWorld
wsp_close_socket sys w s =
    let (p, w₁) = lock_context sys w s in
    let i = w₁.contexts.infos p in
    let below = sys.closes_below w₁.calls in
    let g = log_call w₁.contexts (LspCall.close_below i.provider_socket) in
    let w₂ = record w₁ { contexts = g; calls = w₁.calls + 1 } in
    let shut = record i { provider_socket = invalid_socket } in
    if p == null
    then (false, w₁)
    else if not (i.outstanding_async == 0) || not (i.ref_count == 1)
    then (if below
        then (true, unlock_context (set_info w₂ p (record shut { b_closing = true })) p)
        else (false, unlock_context (set_info w₂ p (record i { b_closing = true })) p))
    else (if below
        then (let w₃ = set_info w₂ p shut in
            let h =
              log_call (remove_socket_info w₃.contexts i.provider p) (LspCall.close_layered s) in
            if sys.closes_layered w₃.calls
            then (true, record w₃ { contexts = record h { freed = p ∷ h.freed } })
            else (false, record w₃ { contexts = h }))
        else (false, unlock_context w₂ p))
