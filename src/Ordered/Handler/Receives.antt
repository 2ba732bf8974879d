-- ===== src/Ordered/Handler/Receives.antt =====
-- A receive of TCP that `HandleIo` of chapter05/iocp/server/iocpserver.cpp completes.
use network_programming_for.Base.{
  ℕ, ◌+◌, ◌<◌, ◌^◌, ◌≡◌, ◌∙◌, ap, refl, Bool, true, false, [], ◌∷◌, arith, ◌==◌, ◌&&◌, ltb, take,
  if◌then◌else◌, some,
}
use network_programming_for.Ordered.State.{Answer, is_success, World, read, Request}
use network_programming_for.Ordered.Objects.{free_buffer_obj}
use network_programming_for.Ordered.Post.{number_send, number_receive, count_operation}
use network_programming_for.Ordered.Sends.{
  io_order_of, pending, set_pending, insert_by, insert_pending_send, send_in_order, do_sends,
}
use network_programming_for.Ordered.Handler.{
  is_empty, echo_received, read_completed, operation_completed, handle_io, conclude, settle,
  settled, count_read, swap_buffers, release_operation, repost_receive,
}
use network_programming_for.Ordered.Handler.Start.{
  with_buffer, after_send, after_recv, get_buffer_obj-good, post_send-good, post_recv-good,
}

pub do_sends-none :
    (api : ℕ → Answer) (g : World) (k : ℕ) → pending g k ≡ [] → do_sends api g k ≡ (g, true)
unfolding do_sends send_in_order
do_sends-none api g k e = rw e refl

insert_into_none :
    (g : World) (k q : ℕ) → pending g k ≡ [] → pending (insert_pending_send g k q) k ≡ q ∷ []
unfolding insert_pending_send insert_by
insert_into_none g k q e =
    let inserted : pending (insert_pending_send g k q) k
        ≡ insert_by (io_order_of g) q (pending g k) =
      ground arith in
    inserted ∙ ap (insert_by (io_order_of g) q) e

-- The object of the echo, numbered and inserted.
abbrev queued : World → (sock buf bytes : ℕ) → World
queued g k p bytes =
    let q = g.heap_next in
    insert_pending_send (swap_buffers (with_buffer (count_read g bytes) g.buffer_size) p q bytes) k
      q

release-pending : (g : World) (k : ℕ) → pending g k ≡ [] → pending (release_operation g k) k ≡ []
release-pending g k e = ground (arith, e)

release-last :
    (g : World) (k : ℕ)
    → ((release_operation g k).sockets k).last_send_issued ≡ (g.sockets k).last_send_issued
release-last g k = ground arith

release-outstanding :
    (g : World) (k n : ℕ)
    → n + 2 < 2 ^ 32
    → (g.sockets k).outstanding_ops ≡ n + 2
    → ((release_operation g k).sockets k).outstanding_ops ≡ n + 1
release-outstanding g k n b e = ground (arith, e)

module _ (api : ℕ → Answer) (good : (n : ℕ) → is_success (api n) ≡ true) where
  do_sends-single :
      (g : World) (k q : ℕ)
      → pending g k ≡ q ∷ []
      → io_order_of g q ≡ (g.sockets k).last_send_issued
      → do_sends api g k ≡ (set_pending (after_send g k q) k [], true)
  unfolding do_sends send_in_order
  do_sends-single g k q e o =
      let now : (io_order_of g q == (g.sockets k).last_send_issued) ≡ true = ground (arith, o) in
      let next : World × Bool → World × Bool = λ r. elim r.1 [
        | true ↦ send_in_order api (set_pending r.0 k []) k []
        | false ↦ (free_buffer_obj r.0 q, false)
      ] in
      rw (e, send_in_order, now) (ap next (post_send-good api good g k q))

  echoed_and_reposted :
      (g : World) (k p bytes : ℕ)
      → pending g k ≡ []
      → io_order_of g p ≡ (g.sockets k).last_send_issued
      → p < g.heap_next
      → let h = set_pending (after_send (queued g k p bytes) k g.heap_next) k [] in
        echo_received api g k p bytes ≡ some (after_recv h k p, false)
  unfolding echo_received repost_receive insert_pending_send
  echoed_and_reposted g k p bytes e o old =
      let h = set_pending (after_send (queued g k p bytes) k g.heap_next) k [] in
      let one =
        do_sends-single (queued g k p bytes) k g.heap_next
          (insert_into_none
            (swap_buffers (with_buffer (count_read g bytes) g.buffer_size) p g.heap_next bytes) k
            g.heap_next e)
          (ground (arith, o, old)) in
      rw (get_buffer_obj-good api good (count_read g bytes) g.buffer_size) (
        ap (λ r. some (if r.1 then repost_receive api r.0 k p else (r.0, true))) one
        ∙ ap (λ r. some (if r.1 then (r.0, false) else (free_buffer_obj r.0 p, true)))
            (post_recv-good api good h k p))

  conclude-open :
      (g : World) (k : ℕ)
      → (g.sockets k).b_closing ≡ false
      → pending g k ≡ []
      → conclude api g k (settled false false) ≡ (release_operation g k, true)
  unfolding conclude settle
  conclude-open g k lives e =
      let g₁ = release_operation g k in
      let o = g₁.sockets k in
      let stays : (o.outstanding_ops == 0 && o.b_closing && is_empty o.out_of_order_sends) ≡ false =
        ground (arith, lives) in
      let none_due = do_sends-none api g₁ k (ground (arith, e)) in rw (stays, none_due) refl

  -- The world after the receive that was next.
  abbrev echoed : World → (sock buf bytes : ℕ) → World
  echoed g k p bytes =
      after_recv (set_pending (after_send (queued g k p bytes) k g.heap_next) k []) k p

  read-settles :
      (g h : World) (k p bytes : ℕ)
      → (g.buffers p).operation ≡ read
      → 0 < bytes
      → echo_received api g k p bytes ≡ some (h, false)
      → handle_io api g k p bytes 0 ≡ some (conclude api h k (settled false false))
  unfolding handle_io operation_completed read_completed
  read-settles g h k p bytes op some_bytes run =
      let some_more : ltb 0 bytes ≡ true = ground (arith, some_bytes) in
      rw (op, some_more, run) refl

  -- The object of the socket and the numbers afterwards.
  echoed-facts :
      (g : World) (k p bytes : ℕ)
      → p < g.heap_next
      → (g.sockets k).last_send_issued + 1 < 2 ^ 32
      → (g.sockets k).outstanding_ops + 2 < 2 ^ 32
      → let h = echoed g k p bytes in
        let o = h.sockets k in
        (o.b_closing ≡ (g.sockets k).b_closing)
        × (pending h k ≡ [])
        × (o.last_send_issued ≡ (g.sockets k).last_send_issued + 1)
        × (o.outstanding_ops ≡ (g.sockets k).outstanding_ops + 2)
        × (io_order_of h p ≡ (g.sockets k).io_count_issued)
  unfolding number_receive number_send count_operation insert_pending_send
  echoed-facts g k p bytes old last ops = ground (arith, old, last, ops)

  echoed-trace :
      (g : World) (k p bytes : ℕ)
      → g.is_tcp ≡ true
      → p < g.heap_next
      → let s = (g.sockets k).s in
        (echoed g k p bytes).trace
        ≡ Request.recv s p
          ∷ Request.send s (take bytes (g.buffers p).memory) 0
          ∷ Request.heap_alloc
          ∷ Request.heap_alloc
          ∷ g.trace
  unfolding number_receive number_send count_operation insert_pending_send
  echoed-trace g k p bytes t old = ground (arith, t, old)

  -- If no call fails and a receive of TCP that is the next one in order completes with at least
  -- one byte on a socket that is not closing, nothing waits in its list, and neither counter
  -- wraps, then HandleIo sends exactly the bytes that arrived and posts the receive again, in this
  -- order and with nothing else but the two allocations; the buffer gets the next number,
  -- LastSendIssued goes up by one and so does the number of outstanding operations.
  pub receive_in_order-echoed :
      (g : World) (k p bytes : ℕ)
      → g.is_tcp ≡ true
      → (g.buffers p).operation ≡ read
      → 0 < bytes
      → p < g.heap_next
      → pending g k ≡ []
      → io_order_of g p ≡ (g.sockets k).last_send_issued
      → (g.sockets k).b_closing ≡ false
      → (g.sockets k).last_send_issued + 1 < 2 ^ 32
      → (g.sockets k).outstanding_ops + 2 < 2 ^ 32
      → let s = (g.sockets k).s in
        (h : World) × (handle_io api g k p bytes 0 ≡ some (h, true))
        × (h.trace
            ≡ Request.recv s p
              ∷ Request.send s (take bytes (g.buffers p).memory) 0
              ∷ Request.heap_alloc
              ∷ Request.heap_alloc
              ∷ g.trace)
        × (pending h k ≡ [])
        × ((h.sockets k).last_send_issued ≡ (g.sockets k).last_send_issued + 1)
        × ((h.sockets k).outstanding_ops ≡ (g.sockets k).outstanding_ops + 1)
        × (io_order_of h p ≡ (g.sockets k).io_count_issued)
  receive_in_order-echoed g k p bytes t op some_bytes old e o lives last ops =
      let i = echoed g k p bytes in
      let (alive, none_left, next, more, numbered) = echoed-facts g k p bytes old last ops in
      let run = echoed_and_reposted g k p bytes e o old in
      (
        release_operation i k,
        read-settles g i k p bytes op some_bytes run
            ∙ ap some (conclude-open i k (alive ∙ lives) none_left),
        echoed-trace g k p bytes t old,
        release-pending i k none_left,
        release-last i k ∙ next,
        release-outstanding i k (g.sockets k).outstanding_ops ops more,
        numbered,
      )
