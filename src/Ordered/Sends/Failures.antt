-- ===== src/Ordered/Sends/Failures.antt =====
-- `DoSends` of chapter05/iocp/server/iocpserver.cpp where a send is not posted.
use network_programming_for.Base.{
  ℕ, ◌+◌, ◌<◌, ◌^◌, ◌≡◌, ◌∙◌, ap, sym, refl, true, false, List, ◌∷◌, arith, ◌==◌,
}
use network_programming_for.Ordered.State.{Answer, is_posted, World}
use network_programming_for.Ordered.Objects.{free_buffer_obj}
use network_programming_for.Ordered.Post.{post_send, number_send}
use network_programming_for.Ordered.Sends.Issued.{request_of}
use network_programming_for.Ordered.Sends.{io_order_of, pending, send_in_order, do_sends}

post_send-refused :
    (api : ℕ → Answer) (g : World) (k p : ℕ)
    → is_posted (api g.calls) ≡ false
    → (post_send api g k p).1 ≡ false
unfolding post_send
post_send-refused api g k p h = rw h refl

-- The state after a send that was not posted.
post_send-state :
    (api : ℕ → Answer) (g : World) (k p : ℕ)
    → is_posted (api g.calls) ≡ false
    → (g.sockets k).last_send_issued + 1 < 2 ^ 32
    → let h = (post_send api g k p).0 in
      (pending h k ≡ pending g k)
      × ((h.sockets k).last_send_issued ≡ (g.sockets k).last_send_issued + 1)
      × (h.trace ≡ request_of g k p ∷ g.trace)
      × (h.freed ≡ g.freed)
      × ((h.sockets k).outstanding_ops ≡ (g.sockets k).outstanding_ops)
unfolding post_send number_send
post_send-state api g k p h b = rw h (ground arith, ground arith, refl, refl, ground arith)

do_sends-refused :
    (api : ℕ → Answer) (g : World) (k x : ℕ) (xs : List ℕ)
    → pending g k ≡ x ∷ xs
    → io_order_of g x ≡ (g.sockets k).last_send_issued
    → is_posted (api g.calls) ≡ false
    → do_sends api g k ≡ (free_buffer_obj (post_send api g k x).0 x, false)
unfolding do_sends send_in_order
do_sends-refused api g k x xs e h r =
    let t : (io_order_of g x == (g.sockets k).last_send_issued) ≡ true = ground (arith, h) in
    rw (e, send_in_order, t, post_send-refused api g k x r) refl

-- If the first object of the list has the number that is next, the counter does not wrap and the
-- system refuses its send, then DoSends reports the failure after this one call; the object has
-- been given back to the heap and is still the first of the list, LastSendIssued has moved past
-- its number, and no operation was counted as outstanding.
pub failed_send-dangles :
    (api : ℕ → Answer) (g : World) (k x : ℕ) (xs : List ℕ)
    → pending g k ≡ x ∷ xs
    → io_order_of g x ≡ (g.sockets k).last_send_issued
    → (g.sockets k).last_send_issued + 1 < 2 ^ 32
    → is_posted (api g.calls) ≡ false
    → let h = (do_sends api g k).0 in
      ((do_sends api g k).1 ≡ false)
      × (h.trace ≡ request_of g k x ∷ g.trace)
      × (h.freed ≡ x ∷ g.freed)
      × (pending h k ≡ x ∷ xs)
      × ((h.sockets k).last_send_issued ≡ io_order_of g x + 1)
      × ((h.sockets k).outstanding_ops ≡ (g.sockets k).outstanding_ops)
unfolding free_buffer_obj
failed_send-dangles api g k x xs e o b r =
    let (kept, last, trace, freed, ops) = post_send-state api g k x r b in
    rw (do_sends-refused api g k x xs e o r)
      (refl, trace, ap (◌∷◌ x) freed, kept ∙ e, last ∙ ap (λ n. n + 1) (sym o), ops)
