-- ===== src/Lsp/Overlap/Counts.antt =====
-- What the completion of an operation in chapter12/LSP/overlap.cpp counts, and whom it tells.
use network_programming_for.Base.{
  ℕ, ◌+◌, ◌<◌, ◌^◌, ◌≡◌, ◌≢◌, ap, subst, refl, Bool, true, false, List, ◌∷◌, ◌==◌, if◌then◌else◌,
  some, arith, u32,
}
use network_programming_for.Lsp.State.{SockInfo}
use network_programming_for.Lsp.Overlap.State.{
  LspOp, LspSystem, OverlappedResult, OverlapCall, OverlapWorld, CallerOverlapped, OverlappedPlus,
  set_overlapped, note,
}
use network_programming_for.Lsp.Overlap.Completion.{
  free_buffer, count_received, count_sent, count_bytes, count_operation, notify_caller,
}
use network_programming_for.Lsp.Overlap.Accounting.{Keeps, put_keeps}

-- The bytes that an operation counts as received, and as sent.
abbrev pub as_received : LspOp → ℕ → ℕ
as_received LspOp.recv n = n
as_received LspOp.recv_from n = n
as_received other n = 0

abbrev pub as_sent : LspOp → ℕ → ℕ
as_sent LspOp.send n = n
as_sent LspOp.send_to n = n
as_sent LspOp.transmit_file n = n
as_sent other n = 0

-- The counts after an operation that ended without an error.
abbrev pub counted : LspOp → ℕ → SockInfo → SockInfo
counted op n i = record i {
  bytes_recv = u32 (i.bytes_recv + as_received op n);
  bytes_sent = u32 (i.bytes_sent + as_sent op n);
}

-- `FreeBuffer` of the buffers of an operation, in the log.
abbrev pub buffers_freed :
    LspOp → (has_iocp : Bool) → (buffers : ℕ) → List OverlapCall → List OverlapCall
buffers_freed LspOp.recv port b l = if port then l else OverlapCall.frees_buffer b ∷ l
buffers_freed LspOp.recv_from port b l = if port then l else OverlapCall.frees_buffer b ∷ l
buffers_freed LspOp.send port b l = if port then l else OverlapCall.frees_buffer b ∷ l
buffers_freed LspOp.send_to port b l = if port then l else OverlapCall.frees_buffer b ∷ l
buffers_freed other port b l = l

module _ (w g : OverlapWorld) (p : ℕ) (i : SockInfo) (l : List OverlapCall)
    (k : Keeps p i l w g) where
  noted_keeps : (c : OverlapCall) → Keeps p i (c ∷ l) w (note g c)
  noted_keeps c = record {
    info = k.info;
    log = ap (λ t. c ∷ t) k.log;
    trace = k.trace;
    freed = k.freed;
    structures = k.structures;
    pool = k.pool;
    port = k.port;
  }

module _ (w g : OverlapWorld) (p b : ℕ) (i : SockInfo) (l : List OverlapCall)
    (k : Keeps p i l w g) where
  freed_by :
      (port : Bool)
      → Keeps p i
          (if port then l else OverlapCall.frees_buffer b ∷ l)
          w
          (if port then g else note g (OverlapCall.frees_buffer b))
  freed_by true = k
  freed_by false = noted_keeps w g p i l k (OverlapCall.frees_buffer b)

  free_keeps :
      Keeps p i (if w.has_iocp then l else OverlapCall.frees_buffer b ∷ l) w (free_buffer g b)
  free_keeps =
      subst
        (λ port. Keeps p i (if port then l else OverlapCall.frees_buffer b ∷ l) w (free_buffer g b))
        k.port (freed_by g.has_iocp)

counts_none : (a : ℕ) → a < 2 ^ 32 → a ≡ u32 (a + 0)
counts_none a h = omega (arith, h)

-- What an operation counts where it counts one of the two numbers only, or none.
module _ (w g : OverlapWorld) (p n : ℕ) (i : SockInfo) (l : List OverlapCall)
    (k : Keeps p i l w g) where
  received_keeps :
      i.bytes_sent < 2 ^ 32 → Keeps p (counted LspOp.recv n i) l w (count_received g p n)
  received_keeps s =
      subst
        (λ b.
          Keeps p (record i { bytes_recv = u32 (i.bytes_recv + n); bytes_sent = b }) l w
            (count_received g p n))
        (counts_none i.bytes_sent s)
        (put_keeps (λ j. record j { bytes_recv = u32 (j.bytes_recv + n) }) p i l w g k)

  sent_keeps : i.bytes_recv < 2 ^ 32 → Keeps p (counted LspOp.send n i) l w (count_sent g p n)
  sent_keeps r =
      subst
        (λ b.
          Keeps p (record i { bytes_recv = b; bytes_sent = u32 (i.bytes_sent + n) }) l w
            (count_sent g p n))
        (counts_none i.bytes_recv r)
        (put_keeps (λ j. record j { bytes_sent = u32 (j.bytes_sent + n) }) p i l w g k)

  uncounted_keeps :
      i.bytes_recv < 2 ^ 32 → i.bytes_sent < 2 ^ 32 → Keeps p (counted LspOp.ioctl n i) l w g
  uncounted_keeps r s =
      subst (λ b. Keeps p (record i { bytes_recv = b; bytes_sent = u32 (i.bytes_sent + 0) }) l w g)
        (counts_none i.bytes_recv r)
        (subst (λ b. Keeps p (record i { bytes_sent = b }) l w g) (counts_none i.bytes_sent s) k)

  pub counted_keeps :
      (ol : ℕ) (op : LspOp)
      → i.bytes_recv < 2 ^ 32
      → i.bytes_sent < 2 ^ 32
      → Keeps p
          (counted op n i)
          (buffers_freed op w.has_iocp (g.structures ol).buffers l)
          w
          (count_bytes g ol p n op)
  unfolding count_bytes
  counted_keeps ol LspOp.recv r s =
      free_keeps w (count_received g p n) p (g.structures ol).buffers (counted LspOp.recv n i) l
        (received_keeps s)
  counted_keeps ol LspOp.recv_from r s =
      free_keeps w (count_received g p n) p (g.structures ol).buffers (counted LspOp.recv n i) l
        (received_keeps s)
  counted_keeps ol LspOp.send r s =
      free_keeps w (count_sent g p n) p (g.structures ol).buffers (counted LspOp.send n i) l
        (sent_keeps r)
  counted_keeps ol LspOp.send_to r s =
      free_keeps w (count_sent g p n) p (g.structures ol).buffers (counted LspOp.send n i) l
        (sent_keeps r)
  counted_keeps ol LspOp.transmit_file r s = sent_keeps r
  counted_keeps ol _ r s = uncounted_keeps r s

pub plain_operation :
    (sys : LspSystem) (w : OverlapWorld) (ol p n : ℕ) (op : LspOp)
    → op ≢ LspOp.accept_ex
    → count_operation sys w ol p n op ≡ some (count_bytes w ol p n op)
unfolding count_operation
plain_operation sys w ol p n LspOp.accept_ex other = absurd (other refl)
plain_operation sys w ol p n _ other = refl

-- What the caller is told of.
abbrev pub notification : OverlappedPlus → OverlappedResult → OverlapCall
notification s r =
    if s.completion_routine == 0
    then OverlapCall.completes s.caller_socket s.caller_overlapped r.result_error r.transferred
    else OverlapCall.queues_apc s.thread_id s.caller_overlapped

module _ (w g : OverlapWorld) (p : ℕ) (i : SockInfo) (l : List OverlapCall)
    (k : Keeps p i l w g) where
  noted_over :
      (o : ℕ) (v : CallerOverlapped) (c : OverlapCall)
      → Keeps p i (c ∷ l) w (note (set_overlapped g o v) c)
  noted_over o v c =
      let m = noted_keeps w g p i l k c in
      record {
        info = m.info;
        log = m.log;
        trace = m.trace;
        freed = m.freed;
        structures = m.structures;
        pool = m.pool;
        port = m.port;
      }

  told_by :
      (plain : Bool) (o : ℕ) (v : CallerOverlapped) (c d : OverlapCall)
      → Keeps p i
          ((if plain then c else d) ∷ l)
          w
          (if plain then note g c else note (set_overlapped g o v) d)
  told_by true o v c d = noted_keeps w g p i l k c
  told_by false o v c d = noted_over o v d

  pub notify_keeps :
      (ol : ℕ) (r : OverlappedResult)
      → Keeps p i
          (notification (g.structures ol) r ∷ l)
          w
          (notify_caller g ol r.result_error r.transferred)
  unfolding notify_caller
  notify_keeps ol r =
      let s = g.structures ol in
      let o = s.caller_overlapped in
      told_by (s.completion_routine == 0) o
        (record (g.overlappeds o) { internal = s.completion_routine })
        (OverlapCall.completes s.caller_socket o r.result_error r.transferred)
        (OverlapCall.queues_apc s.thread_id o)
