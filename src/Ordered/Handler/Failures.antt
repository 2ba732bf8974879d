-- ===== src/Ordered/Handler/Failures.antt =====
-- What `HandleIo` of chapter05/iocp/server/iocpserver.cpp does where a call or an operation fails.
use network_programming_for.Base.{
  ℕ, ◌+◌, ◌<◌, ◌^◌, ◌≡◌, ◌∙◌, ap, refl, Bool, true, false, [], ◌∷◌, arith, ◌==◌, ◌&&◌, Option, some,
  Bool-cases, inl, inr, ◌⊎◌,
}
use network_programming_for.Ordered.State.{
  Answer, is_posted, is_success, World, read, accept, Request, count_request, invalid_socket,
}
use network_programming_for.Ordered.Objects.{
  allocate, get_socket_obj, free_buffer_obj, free_socket_obj,
}
use network_programming_for.Ordered.Post.{post_recv, number_receive, count_operation}
use network_programming_for.Ordered.Sends.{pending}
use network_programming_for.Ordered.Handler.{
  accept_completed, operation_completed, handle_io, fail_operation, conclude, settle, settled,
  mark_closing, release_operation, is_empty, count_read,
}
use network_programming_for.Ordered.Handler.Start.{after_recv, with_socket}
use network_programming_for.Ordered.Handler.Receives.{do_sends-none}

module _ (api : ℕ → Answer) where
  reposted :
      (g : World) (k p : ℕ)
      → is_posted (api g.calls) ≡ true
      → (post_recv api g k p).0 ≡ after_recv g k p
  unfolding post_recv
  reposted g k p took = rw took refl

  -- An error while operations are outstanding and nothing waits to be sent.
  conclude-error :
      (g : World) (k : ℕ)
      → pending g k ≡ []
      → (g.sockets k).outstanding_ops < 2 ^ 32
      → 1 < (g.sockets k).outstanding_ops
      → conclude api g k (settled true false) ≡ (release_operation (mark_closing g k) k, true)
  unfolding conclude settle
  conclude-error g k e bound busy =
      let g₁ = release_operation (mark_closing g k) k in
      let o = g₁.sockets k in
      let stays : (o.outstanding_ops == 0 && o.b_closing && is_empty o.out_of_order_sends) ≡ false =
        ground (arith, bound, busy) in
      rw (stays, do_sends-none api g₁ k (ground (arith, e))) refl

  datagram_error-run :
      (g : World) (k p bytes error : ℕ)
      → g.is_tcp ≡ false
      → (g.buffers p).operation ≡ read
      → (error == 0) ≡ false
      → is_posted (api g.calls) ≡ true
      → handle_io api g k p bytes error
        ≡ some (conclude api (post_recv api g k p).0 k (settled true false))
  unfolding handle_io operation_completed
  datagram_error-run g k p bytes error t op e took = rw (e, t, op) refl

  datagram-facts :
      (g : World) (k p : ℕ)
      → pending g k ≡ []
      → 0 < (g.sockets k).outstanding_ops
      → (g.sockets k).outstanding_ops + 1 < 2 ^ 32
      → let g₁ = after_recv g k p in
        let h = release_operation (mark_closing g₁ k) k in
        (pending g₁ k ≡ [])
        × ((g₁.sockets k).outstanding_ops ≡ (g.sockets k).outstanding_ops + 1)
        × ((h.sockets k).b_closing ≡ true)
        × ((h.sockets k).outstanding_ops ≡ (g.sockets k).outstanding_ops)
  unfolding number_receive count_operation
  datagram-facts g k p e busy bound = ground (arith, e, busy, bound)

  -- If a UDP receive completes with an error, nothing waits to be sent, at least one operation is
  -- outstanding with no wrap of the counter, and the receive can be posted again, then HandleIo
  -- posts it again, asks nothing else of the system, keeps the number of outstanding operations,
  -- and marks the socket as closing.
  pub datagram_error-closes :
      (g : World) (k p bytes error : ℕ)
      → g.is_tcp ≡ false
      → (g.buffers p).operation ≡ read
      → (error == 0) ≡ false
      → is_posted (api g.calls) ≡ true
      → pending g k ≡ []
      → 0 < (g.sockets k).outstanding_ops
      → (g.sockets k).outstanding_ops + 1 < 2 ^ 32
      → (h : World) × (handle_io api g k p bytes error ≡ some (h, true))
        × (h.trace ≡ Request.recv (g.sockets k).s p ∷ g.trace)
        × ((h.sockets k).outstanding_ops ≡ (g.sockets k).outstanding_ops)
        × ((h.sockets k).b_closing ≡ true)
  unfolding number_receive count_operation
  datagram_error-closes g k p bytes error t op e took none_left busy bound =
      let g₁ = after_recv g k p in
      let (empty, more, closing, same) = datagram-facts g k p none_left busy bound in
      (
        release_operation (mark_closing g₁ k) k,
        datagram_error-run g k p bytes error t op e took
            ∙ ap (λ w. some (conclude api w k (settled true false))) (reposted g k p took)
            ∙ ap some (
                conclude-error g₁ k empty (omega (arith, more, bound)) (omega (arith, more, busy))),
        refl,
        same,
        closing,
      )

  got_socket :
      (g : World) (s af : ℕ)
      → is_success (api g.calls) ≡ true
      → get_socket_obj api g s af ≡ some (g.heap_next, with_socket g s af)
  unfolding get_socket_obj allocate
  got_socket g s af good = ground (arith, good)

  -- If the object of a client is allocated and its handle cannot be associated with the completion
  -- port, HandleIo, for an accept on a socket object below the heap, returns inside the critical
  -- section: after the allocation and the failed call it asks nothing of the system, so that no
  -- accept is posted again and the handle is not closed, and the object of the listening socket,
  -- with its count of outstanding operations, is unchanged.
  pub association_failure-returns :
      (g : World) (k p bytes : ℕ)
      → (g.buffers p).operation ≡ accept
      → k < g.heap_next
      → is_success (api g.calls) ≡ true
      → is_success (api (g.calls + 1)) ≡ false
      → (h : World) × (handle_io api g k p bytes 0 ≡ some (h, false))
        × (h.trace ≡ Request.associate (g.buffers p).sclient ∷ Request.heap_alloc ∷ g.trace)
        × (h.sockets k ≡ g.sockets k)
  unfolding handle_io operation_completed accept_completed conclude
  association_failure-returns g k p bytes op old good bad =
      let s = (g.buffers p).sclient in
      let h =
        count_request (with_socket (count_read g bytes) s (g.sockets k).af) (Request.associate s) in
      (
        h,
        rw (op, got_socket (count_read g bytes) s (g.sockets k).af good, bad) refl,
        refl,
        ground (arith, old),
      )

  -- The object of the socket, with one operation less.
  abbrev failed : World → (sock buf : ℕ) → World
  failed g k p = release_operation (free_buffer_obj g p) k

  fail_last :
      (g : World) (k p : ℕ)
      → (g.sockets k).outstanding_ops ≡ 1
      → fail_operation g k p ≡ free_socket_obj (failed g k p) k
  unfolding fail_operation free_buffer_obj
  fail_last g k p one =
      let last : (((failed g k p).sockets k).outstanding_ops == 0) ≡ true = ground (arith, one) in
      rw last refl

  fail_earlier :
      (g : World) (k p : ℕ)
      → 1 < (g.sockets k).outstanding_ops
      → (g.sockets k).outstanding_ops < 2 ^ 32
      → fail_operation g k p ≡ failed g k p
  unfolding fail_operation free_buffer_obj
  fail_earlier g k p busy bound =
      let left : (((failed g k p).sockets k).outstanding_ops == 0) ≡ false =
        ground (arith, busy, bound) in
      rw left refl

  fails :
      (g : World) (k p bytes error : ℕ)
      → g.is_tcp ≡ true
      → (error == 0) ≡ false
      → handle_io api g k p bytes error ≡ some (fail_operation g k p, true)
  unfolding handle_io
  fails g k p bytes error t e = rw (e, t) refl

  free_last :
      (g : World) (k p : ℕ)
      → (g.sockets k).outstanding_ops ≡ 1
      → let h = free_socket_obj (failed g k p) k in
        (h.freed ≡ p ∷ g.freed) × ((h.sockets k).s ≡ invalid_socket) × ((h.sockets k).freed ≡ true)
  unfolding free_buffer_obj free_socket_obj
  free_last g k p one = ground (arith, one)

  failed-facts :
      (g : World) (k p : ℕ)
      → 1 < (g.sockets k).outstanding_ops
      → (g.sockets k).outstanding_ops < 2 ^ 32
      → let h = failed g k p in
        (h.freed ≡ p ∷ g.freed)
        × (h.trace ≡ g.trace)
        × ((h.sockets k).outstanding_ops + 1 ≡ (g.sockets k).outstanding_ops)
        × ((h.sockets k).freed ≡ (g.sockets k).freed)
  unfolding free_buffer_obj
  failed-facts g k p busy bound = ground (arith, busy, bound)

  -- If an operation of a TCP socket completes with an error while the count of outstanding
  -- operations is a 32-bit number above 0, HandleIo frees the buffer, and either other operations
  -- are outstanding, and then only the count goes down by one and nothing is asked of the system,
  -- or this was the last one, and then the socket is closed and its object freed.
  pub failed_operation :
      (g : World) (k p bytes error : ℕ)
      → g.is_tcp ≡ true
      → (error == 0) ≡ false
      → 0 < (g.sockets k).outstanding_ops
      → (g.sockets k).outstanding_ops < 2 ^ 32
      → (h : World) × (handle_io api g k p bytes error ≡ some (h, true))
        × (h.freed ≡ p ∷ g.freed)
        × (((1 < (g.sockets k).outstanding_ops)
              × (h.trace ≡ g.trace)
              × ((h.sockets k).outstanding_ops + 1 ≡ (g.sockets k).outstanding_ops)
              × ((h.sockets k).freed ≡ (g.sockets k).freed))
            ⊎ (((g.sockets k).outstanding_ops ≡ 1)
                × ((h.sockets k).s ≡ invalid_socket)
                × ((h.sockets k).freed ≡ true)))
  failed_operation g k p bytes error t e busy bound =
      let done = fails g k p bytes error t e in
      let result : World → Option (World × Bool) = λ h. some (h, true) in
      elim (Bool-cases ((g.sockets k).outstanding_ops == 1)) [
        | inl last ↦
            let one : (g.sockets k).outstanding_ops ≡ 1 = ground (arith, last) in
            let (freed, s, gone) = free_last g k p one in
            (
              free_socket_obj (failed g k p) k,
              done ∙ ap result (fail_last g k p one),
              freed,
              inr (one, s, gone),
            )
        | inr more ↦
            let many : 1 < (g.sockets k).outstanding_ops = ground (arith, more, busy) in
            let (freed, trace, less, there) = failed-facts g k p many bound in
            (
              failed g k p,
              done ∙ ap result (fail_earlier g k p many bound),
              freed,
              inl (many, trace, less, there),
            )
      ]
