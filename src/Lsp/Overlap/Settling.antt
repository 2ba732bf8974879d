-- ===== src/Lsp/Overlap/Settling.antt =====
-- What the completion of an operation in chapter12/LSP/overlap.cpp does: the counts, the notification and the structure.
use network_programming_for.Base.{
  ℕ, ◌<◌, ◌^◌, ◌≡◌, ◌≢◌, Bool, false, List, ◌==◌, if◌then◌else◌, some, null,
}
use network_programming_for.Lsp.State.{SockInfo}
use network_programming_for.Lsp.Overlap.State.{
  LspOp, LspSystem, OverlappedResult, OverlapCall, OverlapWorld, OverlappedPlus, set_overlapped,
  query_context,
}
use network_programming_for.Lsp.Overlap.{wsa_io_pending}
use network_programming_for.Lsp.Overlap.Accounting.{more_users}
use network_programming_for.Lsp.Overlap.Counts.{counted, buffers_freed}

-- What an operation that ended with an error, or without one, counts and frees.
abbrev pub accounted : OverlappedResult → LspOp → SockInfo → SockInfo
accounted r op i = if r.result_error == 0 then counted op r.transferred i else i

abbrev pub accounted_log :
    OverlappedResult → (has_iocp : Bool) → OverlappedPlus → List OverlapCall → List OverlapCall
accounted_log r port s l =
    if r.result_error == 0 then buffers_freed s.operation port s.buffers l else l

module _ (sys : LspSystem) (w : OverlapWorld) (ol p : ℕ) (i : SockInfo) (r : OverlappedResult)
    (alive : p ≢ null) (found : query_context sys w (w.structures ol).caller_socket ≡ some p)
    (own : (w.structures ol).sock_info ≡ p) (stays : i.b_closing ≡ false)
    (few : i.ref_count < 2 ^ 32) (small : (i.bytes_recv < 2 ^ 32) × (i.bytes_sent < 2 ^ 32)) where
  module _ (l : List OverlapCall) (here : w.contexts.infos p ≡ more_users i) (log : w.log ≡ l)
      (other : (w.structures ol).operation ≢ LspOp.accept_ex) where
    abbrev s : OverlappedPlus
    s = w.structures ol

    abbrev stored : OverlapWorld
    stored = set_overlapped w s.caller_overlapped (record (w.overlappeds s.caller_overlapped) {
      offset = r.result_error;
      offset_high = r.result_flags;
      internal_high = r.transferred;
    })

-- The result that the completion goes on with: given to it, or asked of the provider below.
abbrev pub result_of : LspSystem → OverlapWorld → OverlappedResult → OverlappedResult
result_of sys w given = if given.result_error == wsa_io_pending then sys.result w.calls else given
