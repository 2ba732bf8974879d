-- ===== src/Ordered/Handler/Others.antt =====
-- What `HandleIo` of chapter05/iocp/server/iocpserver.cpp does to one socket leaves the objects of
-- the others and the numbers of the receives.
use network_programming_for.Base.{
  ℕ, ◌+◌, ◌≡◌, ◌∙◌, refl, Bool, true, false, List, [], ◌∷◌, arith, ◌==◌, ◌&&◌, Bool-cases, inl, inr,
  if◌then◌else◌,
}
use network_programming_for.Ordered.State.{
  Answer, success, failure, is_posted, invalid_socket, World,
}
use network_programming_for.Ordered.Objects.{free_buffer_obj, free_socket_obj}
use network_programming_for.Ordered.Post.{post_send, post_accept, number_send, count_operation}
use network_programming_for.Ordered.Sends.{
  io_order_of, pending, set_pending, send_in_order, do_sends,
}
use network_programming_for.Ordered.Handler.{
  Outcome, returned, settled, close_socket_obj, settle, conclude, release_operation, mark_closing,
  is_empty,
}

-- Another socket's object and the numbers of the receives stay.
pub record Keeps (c : ℕ) (g h : World) : Type 0 where
  pub order : (q : ℕ) → io_order_of h q ≡ io_order_of g q
  pub client : h.sockets c ≡ g.sockets c

pub post_accept-Keeps :
    (api : ℕ → Answer) (g : World) (c k p : ℕ)
    → (k == c) ≡ false
    → Keeps c g (post_accept api g k p).0
unfolding post_accept count_operation
post_accept-Keeps api g c k p d =
    let handle : ℕ = elim (api g.calls) [ success h ↦ h | failure _ ↦ invalid_socket ] in
    elim (Bool-cases (handle == invalid_socket)) [
      | inl bad ↦ rw bad (record { order = λ q. ground arith; client = refl })
      | inr fine ↦ elim (Bool-cases (is_posted (api (g.calls + 1)))) [
        | inl took ↦ rw (fine, took) (record { order = λ q. ground arith; client = ground arith })
        | inr refused ↦ rw (fine, refused) (record { order = λ q. ground arith; client = refl })
      ]
    ]

pub Keeps-trans : (c : ℕ) (g h i : World) → Keeps c g h → Keeps c h i → Keeps c g i
Keeps-trans c g h i a b = record {
  order = λ q. b.order q ∙ a.order q;
  client = b.client ∙ a.client;
}

close_socket_obj-Keeps : (g : World) (c k : ℕ) → (k == c) ≡ false → Keeps c g (close_socket_obj g k)
unfolding close_socket_obj free_socket_obj
close_socket_obj-Keeps g c k d = record { order = λ q. ground arith; client = ground arith }

module _ (api : ℕ → Answer) (c k : ℕ) (apart : (k == c) ≡ false) where
  post_send-Keeps : (g : World) (p : ℕ) → Keeps c g (post_send api g k p).0
  unfolding post_send number_send count_operation
  post_send-Keeps g p = record { order = λ q. ground arith; client = ground arith }

  set_pending-Keeps : (g : World) (ps : List ℕ) → Keeps c g (set_pending g k ps)
  set_pending-Keeps g ps = record { order = λ q. refl; client = ground arith }

  send_in_order-Keeps : (g : World) (ps : List ℕ) → Keeps c g (send_in_order api g k ps).0
  unfolding send_in_order free_buffer_obj
  send_in_order-Keeps g [] = record { order = λ q. refl; client = refl }
  send_in_order-Keeps g (x ∷ xs) =
      let sent = (post_send api g k x).0 in
      elim (Bool-cases (io_order_of g x == (g.sockets k).last_send_issued)) [
        | inr later ↦ rw (later, send_in_order) (record { order = λ q. refl; client = refl })
        | inl now ↦ elim (Bool-cases (post_send api g k x).1) [
          | inl took ↦
              rw (now, send_in_order, took)
                (Keeps-trans c g (set_pending sent k xs) _
                  (Keeps-trans c g sent _ (post_send-Keeps g x) (set_pending-Keeps sent xs))
                  (send_in_order-Keeps (set_pending sent k xs) xs))
          | inr refused ↦
              rw (now, send_in_order, refused)
                (Keeps-trans c g sent _ (post_send-Keeps g x)
                  (record { order = λ q. refl; client = refl }))
        ]
      ]

  do_sends-Keeps : (g : World) → Keeps c g (do_sends api g k).0
  unfolding do_sends
  do_sends-Keeps g = send_in_order-Keeps g (pending g k)

  mark_closing-Keeps : (g : World) → Keeps c g (mark_closing g k)
  mark_closing-Keeps g = record { order = λ q. refl; client = ground arith }

  release_operation-Keeps : (g : World) → Keeps c g (release_operation g k)
  release_operation-Keeps g = record { order = λ q. refl; client = ground arith }

  -- The world that `settle` starts from.
  release-Keeps :
      (g : World) (error : Bool)
      → Keeps c g (release_operation (if error then mark_closing g k else g) k)
  release-Keeps g true =
      Keeps-trans c g (mark_closing g k) _ (mark_closing-Keeps g)
        (release_operation-Keeps (mark_closing g k))
  release-Keeps g false = release_operation-Keeps g

  settle-Keeps : (g : World) (error cleanup : Bool) → Keeps c g (settle api g k error cleanup).0
  unfolding settle
  settle-Keeps g error cleanup =
      let g₁ = release_operation (if error then mark_closing g k else g) k in
      let o = g₁.sockets k in
      let closes = o.outstanding_ops == 0 && o.b_closing && is_empty o.out_of_order_sends in
      elim (Bool-cases closes) [
        | inl now ↦ rw now (release-Keeps g error)
        | inr later ↦ rw later (Keeps-trans c g g₁ _ (release-Keeps g error) (do_sends-Keeps g₁))
      ]

  pub conclude-Keeps : (g : World) (o : Outcome) → Keeps c g (conclude api g k o).0
  unfolding conclude
  conclude-Keeps g returned = record { order = λ q. refl; client = refl }
  conclude-Keeps g (settled error cleanup) =
      let h = (settle api g k error cleanup).0 in
      elim (Bool-cases (settle api g k error cleanup).1) [
        | inl closes ↦ rw closes (
            Keeps-trans c g h _ (settle-Keeps g error cleanup) (close_socket_obj-Keeps h c k apart))
        | inr stays ↦ rw stays (settle-Keeps g error cleanup)
      ]
