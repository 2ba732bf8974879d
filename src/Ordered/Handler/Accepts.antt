-- ===== src/Ordered/Handler/Accepts.antt =====
-- A connection accepted by `HandleIo` of chapter05/iocp/server/iocpserver.cpp.
use mathlib.Core.List.Perm
use mathlib.Core.List.{Perm, Nodup}
use network_programming_for.Base.{
  ℕ, zero, suc, fun_ext, ◌+◌, ◌<◌, ◌^◌, ◌≡◌, ◌∙◌, sym, ap, ap₂, subst, refl, Bool, true, false,
  List, [], map, arith, ◌==◌, take, take_all, if◌then◌else◌, Option, some, length,
}
use network_programming_for.Ordered.State.{
  Answer, is_posted, is_success, World, accept, Request, set_buffer, count_request,
}
use network_programming_for.Ordered.Objects.{free_buffer_obj, ◌>>=◌}
use network_programming_for.Ordered.Post.{number_send, count_operation, post_accept}
use network_programming_for.Ordered.Sends.{io_order_of, pending}
use network_programming_for.Ordered.Sends.Reorder.{count_from}
use network_programming_for.Ordered.Sends.Rearranged.{length-Perm, Perm-unique}
use network_programming_for.Ordered.Sends.Counting.{Nodup-count_from}
use network_programming_for.Ordered.Sends.Issued.{last_of, request_of, sends_of}
use network_programming_for.Ordered.Sends.Echo.{receive_all, echo_in_order}
use network_programming_for.Ordered.Handler.{
  give_up_client, post_receives, echo_accepted, accept_completed, handle_io, operation_completed,
  rounds, count_read, conclude, settled,
}
use network_programming_for.Ordered.Handler.Start.{
  Started, buffers_from, with_buffer, with_socket, after_send, get_buffer_obj-good,
  get_socket_obj-good, post_send-good, post_receives-Started,
}
use network_programming_for.Ordered.Handler.Others.{Keeps-trans, post_accept-Keeps, conclude-Keeps}

rounds_bound : (n : ℕ) → rounds n < 2 ^ 31
rounds_bound n = ground arith

length-buffers_from : (a n : ℕ) → length (buffers_from a n) ≡ n
length-buffers_from a zero = refl
length-buffers_from a (suc n) = ap suc (length-buffers_from (a + 2) n)

-- The echo of what came with an accept.
abbrev echo_of : World → (buf bytes : ℕ) → World
echo_of g p bytes =
    let g₁ = with_buffer g bytes in
    let copy = take bytes (g₁.buffers p).memory in
    set_buffer g₁ g.heap_next (record (g₁.buffers g.heap_next) { memory = copy })

-- The world in which data have come in: with a receive, the system has stored them in its buffer, and
-- their number stands there.
abbrev pub filled : (incoming : ℕ → List ℕ) → World → World
filled incoming h = record h {
  buffers = λ q. record (h.buffers q) { memory = incoming q; buflen = length (incoming q) };
}

module _ (api : ℕ → Answer) (good : (n : ℕ) → is_success (api n) ≡ true) where
  echo_accepted-good :
      (g : World) (k p c bytes : ℕ)
      → let g₁ = after_send (echo_of g p bytes) c g.heap_next in
        let n = rounds g.overlapped_count in
        (g₁.sockets c).io_count_issued + n < 2 ^ 32
        → (g₁.sockets c).outstanding_ops + n < 2 ^ 32
        → (h : World) × (echo_accepted api g k p c bytes false ≡ some (post_accept api h k p).0)
          × Started c n g₁ h
  unfolding echo_accepted
  echo_accepted-good g k p c bytes b o =
      let n = rounds g.overlapped_count in
      let (h, run, started) =
        post_receives-Started api good (after_send (echo_of g p bytes) c g.heap_next) c n b o in
      let accepts : World × Bool → Option World = λ s. some (
        if s.1
        then give_up_client (post_accept api s.0 k p).0 c
        else (post_accept api s.0 k p).0) in
      let receives : World × Bool → Option World = λ r.
        (if r.1 then post_receives api r.0 c n else some (free_buffer_obj r.0 g.heap_next, true))
        >>= accepts in
      (
        h,
        rw (get_buffer_obj-good api good g bytes) (
            ap receives (post_send-good api good (echo_of g p bytes) c g.heap_next)
            ∙ ap (λ o. o >>= accepts) run),
        started,
      )

  -- The client's object, associated with the port.
  abbrev welcomed : World → (sock buf bytes : ℕ) → World
  welcomed g k p bytes =
      let s = (g.buffers p).sclient in
      count_request (with_socket (count_read g bytes) s (g.sockets k).af) (Request.associate s)

  -- With the echo of the first data underway.
  abbrev greeted : World → (sock buf bytes : ℕ) → World
  greeted g k p bytes =
      after_send (echo_of (welcomed g k p bytes) p bytes) g.heap_next (g.heap_next + 1)

  greeted-client :
      (g : World) (k p bytes : ℕ)
      → g.is_tcp ≡ true
      → let o = (greeted g k p bytes).sockets g.heap_next in
        (o.io_count_issued ≡ 1)
        × (o.last_send_issued ≡ 1)
        × (o.outstanding_ops ≡ 1)
        × (o.out_of_order_sends ≡ [])
        × (o.s ≡ (g.buffers p).sclient)
  unfolding number_send count_operation
  greeted-client g k p bytes t = ground (arith, t)

  greeted-heap : (g : World) (k p bytes : ℕ) → (greeted g k p bytes).heap_next ≡ g.heap_next + 3
  unfolding number_send count_operation
  greeted-heap g k p bytes = omega arith

  accept_completed-good :
      (g : World) (k p bytes : ℕ)
      → g.is_tcp ≡ true
      → (h : World) × (accept_completed api g k p bytes false
          ≡ some ((post_accept api h k p).0, settled false false))
        × Started g.heap_next (rounds g.overlapped_count) (greeted g k p bytes) h
  unfolding accept_completed
  accept_completed-good g k p bytes t =
      let g₁ = welcomed g k p bytes in
      let c = greeted-client g k p bytes t in
      let n = rounds_bound g.overlapped_count in
      let (h, run, started) =
        echo_accepted-good g₁ k p g.heap_next bytes (omega (arith, c.0, n))
          (omega (arith, c.2, n)) in
      (
        h,
        rw
            (
              get_socket_obj-good api good (count_read g bytes) (g.buffers p).sclient
                  (g.sockets k).af,
              good (g.calls + 1),
              run,
            )
            refl,
        started,
      )

  -- The buffers of the first receives.
  abbrev pub first_receives : World → List ℕ
  first_receives g = buffers_from (g.heap_next + 3) (rounds g.overlapped_count)

  -- If no call fails, HandleIo turns a TCP accept on a socket object below the heap into an object
  -- for the client with its handle, an empty list of early sends, LastSendIssued 1, as many
  -- receives as gOverlappedCount says on fresh buffers numbered from 1 on, and one more
  -- outstanding operation than receives.
  pub accept-prepares :
      (g : World) (k p bytes : ℕ)
      → g.is_tcp ≡ true
      → (g.buffers p).operation ≡ accept
      → k < g.heap_next
      → let c = g.heap_next in
        (h : World) × (handle_io api g k p bytes 0 ≡ some (h, true))
        × ((h.sockets c).s ≡ (g.buffers p).sclient)
        × (pending h c ≡ [])
        × ((h.sockets c).last_send_issued ≡ 1)
        × (map (io_order_of h) (first_receives g) ≡ count_from 1 (rounds g.overlapped_count))
        × ((h.sockets c).outstanding_ops ≡ 1 + rounds g.overlapped_count)
  unfolding handle_io operation_completed conclude
  accept-prepares g k p bytes t op old =
      let c = g.heap_next in
      let n = rounds g.overlapped_count in
      let (h, run, started) = accept_completed-good g k p bytes t in
      let (issued, last, ops, none_yet, handle) = greeted-client g k p bytes t in
      let apart : (k == c) ≡ false = ground (arith, old) in
      let h₁ = (post_accept api h k p).0 in
      let h₂ = (conclude api h₁ k (settled false false)).0 in
      let same =
        Keeps-trans c h h₁ h₂ (post_accept-Keeps api h c k p apart)
          (conclude-Keeps api c k apart h₁ (settled false false)) in
      (
        h₂,
        rw (op, run) refl,
        ap (λ o. o.s) same.client ∙ started.handle ∙ handle,
        ap (λ o. o.out_of_order_sends) same.client ∙ started.waiting ∙ none_yet,
        ap (λ o. o.last_send_issued) same.client ∙ started.last ∙ last,
        ap (λ f. map f (first_receives g)) (fun_ext same.order)
            ∙ ap (λ a. map (io_order_of h) (buffers_from a n)) (sym (greeted-heap g k p bytes))
            ∙ started.numbered
            ∙ ap (λ m. count_from m n) issued,
        ap (λ o. o.outstanding_ops) same.client ∙ started.outstanding ∙ ap (λ m. m + n) ops,
      )

  -- If no call of the system fails, HandleIo brings a TCP accept on a socket object below the heap
  -- to a world in which the first receives of the new connection, of which gOverlappedCount are
  -- posted on fresh buffers, may complete in any order and with any bytes, each buffer with its
  -- own: with InsertPendingSend and DoSends at each of them and every send posted, exactly the
  -- bytes of each buffer are handed to the system on the handle of the client, in the order in
  -- which the receives were posted and not in that of their completion, and no object is left in
  -- the list of sends that came too early.
  pub connection-in_order :
      (later : ℕ → Answer) (g : World) (k p bytes : ℕ) (incoming : ℕ → List ℕ) (ps : List ℕ)
      → ((n : ℕ) → is_posted (later n) ≡ true)
      → g.is_tcp ≡ true
      → (g.buffers p).operation ≡ accept
      → k < g.heap_next
      → Perm ps (first_receives g)
      → let c = g.heap_next in
        (h : World) × (handle_io api g k p bytes 0 ≡ some (h, true))
        × (pending (receive_all later (filled incoming h) c ps) c ≡ [])
        × ((receive_all later (filled incoming h) c ps).trace
            ≡ sends_of
                (λ q.
                  Request.send
                    (g.buffers p).sclient
                    (incoming q)
                    (if h.is_tcp then 0 else (h.buffers q).addr))
                (first_receives g)
                h.trace)
  connection-in_order later g k p bytes incoming ps sends t op old perm =
      let n = rounds g.overlapped_count in
      let c = g.heap_next in
      let (h, run, handle, empty, last, numbers, ops) = accept-prepares g k p bytes t op old in
      let order = io_order_of h in
      let long : length ps ≡ n =
        length-Perm ps (first_receives g) perm ∙ length-buffers_from (g.heap_next + 3) n in
      let counted : count_from (last_of h c) (length ps) ≡ map order (first_receives g) =
        ap₂ count_from last long ∙ sym numbers in
      let (left, end, qs, same, sent, trace) =
        echo_in_order later sends (filled incoming h) c ps empty
          (omega (arith, last, long, rounds_bound g.overlapped_count))
          (subst (Perm (map order ps)) (sym counted) (Perm.map order perm)) in
      let exactly : qs ≡ first_receives g =
        Perm-unique order qs (first_receives g) (Perm.trans same perm) (sent ∙ counted)
          (subst Nodup (sym numbers) (Nodup-count_from 1 n)) in
      let requests : request_of (filled incoming h) c ≡ (λ q.
        Request.send (g.buffers p).sclient (incoming q)
          (if h.is_tcp then 0 else (h.buffers q).addr)) =
        fun_ext (λ q.
          ap₂ (λ s b. Request.send s b (if h.is_tcp then 0 else (h.buffers q).addr)) handle
            (take_all (length (incoming q)) (incoming q) (omega arith))) in
      (h, run, left, trace ∙ ap₂ (λ f l. sends_of f l h.trace) requests exactly)
