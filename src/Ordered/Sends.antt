-- ===== src/Ordered/Sends.antt =====
-- `InsertPendingSend` and `DoSends` of chapter05/iocp/server/iocpserver.cpp.
pub mod Reorder
pub mod Counting
pub mod Arrivals
pub mod Rearranged
pub mod Issued
pub mod Echo
pub mod Failures
use network_programming_for.Base.{ℕ, Bool, true, false, List, [], ◌∷◌, ◌==◌, ltb, if◌then◌else◌}
use network_programming_for.Ordered.State.{Answer, World, set_socket}
use network_programming_for.Ordered.Objects.{free_buffer_obj}
use network_programming_for.Ordered.Post.{post_send}

abbrev pub io_order_of : World → ℕ → ℕ
io_order_of g p = (g.buffers p).io_order

abbrev pub pending : World → ℕ → List ℕ
pending g k = (g.sockets k).out_of_order_sends

abbrev pub set_pending : World → ℕ → List ℕ → World
set_pending g k ps = set_socket g k (record (g.sockets k) { out_of_order_sends = ps })

-- The loop passes over the objects with an order that is not above the one of `send`.
unfoldable pub insert_by : (order : ℕ → ℕ) → (send : ℕ) → List ℕ → List ℕ
insert_by order send [] = send ∷ []
insert_by order send (ptr ∷ rest) =
    let behind = insert_by order send rest in
    if ltb (order send) (order ptr) then send ∷ ptr ∷ rest else ptr ∷ behind

unfoldable pub insert_pending_send : World → (sock send : ℕ) → World
insert_pending_send g k send = set_pending g k (insert_by (io_order_of g) send (pending g k))

module _ (api : ℕ → Answer) where
  -- The `while` along the list. A send that is not posted is freed, and stays at the head.
  unfoldable pub send_in_order : World → (sock : ℕ) → List ℕ → World × Bool
  send_in_order g k [] = (g, true)
  send_in_order g k (sendobj ∷ rest) =
      elim (io_order_of g sendobj == (g.sockets k).last_send_issued) [
        | true ↦ elim (post_send api g k sendobj).1 [
          | true ↦ send_in_order (set_pending (post_send api g k sendobj).0 k rest) k rest
          | false ↦ (free_buffer_obj (post_send api g k sendobj).0 sendobj, false)
        ]
        | false ↦ (g, true)
      ]

  unfoldable pub do_sends : World → (sock : ℕ) → World × Bool
  do_sends g k = send_in_order g k (pending g k)
