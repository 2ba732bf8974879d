-- ===== src/Ordered/Handler/Start.antt =====
-- The start of a connection in `HandleIo` of chapter05/iocp/server/iocpserver.cpp.
use network_programming_for.Base.{
  ℕ, zero, suc, ◌+◌, ◌<◌, ◌^◌, ◌≡◌, ◌∙◌, sym, ap, ap₂, refl, Bool, true, false, List, [], ◌∷◌, map,
  arith, ◌==◌, if◌then◌else◌, Option, some, replicate,
}
use network_programming_for.Ordered.State.{
  Answer, is_posted, is_success, World, accept, Request, set_buffer, set_socket, count_request,
}
use network_programming_for.Ordered.Objects.{
  free_buffer_obj, allocate, get_buffer_obj, get_socket_obj,
}
use network_programming_for.Ordered.Post.{
  contents, post_send, post_recv, number_send, number_receive, count_operation,
}
use network_programming_for.Ordered.Sends.{io_order_of, pending}
use network_programming_for.Ordered.Sends.Rearranged.{cons_head}
use network_programming_for.Ordered.Sends.Reorder.{count_from}
use network_programming_for.Ordered.Handler.{post_receives}

-- The addresses of the buffer objects: the heap gives two blocks for each.
abbrev pub buffers_from : ℕ → ℕ → List ℕ
buffers_from a zero = []
buffers_from a (suc n) = a ∷ buffers_from (a + 2) n

-- `h` comes after `g` and has the receives at these addresses posted on the socket.
pub record Started (c n : ℕ) (g h : World) : Type 0 where
  pub numbered :
      map (io_order_of h) (buffers_from g.heap_next n) ≡ count_from (g.sockets c).io_count_issued n
  pub outstanding : (h.sockets c).outstanding_ops ≡ (g.sockets c).outstanding_ops + n
  pub last : (h.sockets c).last_send_issued ≡ (g.sockets c).last_send_issued
  pub handle : (h.sockets c).s ≡ (g.sockets c).s
  pub waiting : pending h c ≡ pending g c
  pub older : (q : ℕ) → q < g.heap_next → io_order_of h q ≡ io_order_of g q
  pub others : (k : ℕ) → (k == c) ≡ false → h.sockets k ≡ g.sockets k

-- A block of the heap is taken.
abbrev pub allocated : World → World
allocated g = record (count_request g Request.heap_alloc) { heap_next = g.heap_next + 1 }

abbrev pub with_buffer : World → (buflen : ℕ) → World
with_buffer g n = set_buffer (allocated (allocated g)) g.heap_next (record {
  sclient = 0;
  memory = replicate n 0;
  buflen = n;
  operation = accept;
  addr = 0;
  io_order = 0;
})

-- A receive is numbered and posted.
abbrev pub after_recv : World → (sock buf : ℕ) → World
after_recv g k p =
    count_operation (count_request (number_receive g k p) (Request.recv (g.sockets k).s p)) k

abbrev pub after_send : World → (sock buf : ℕ) → World
after_send g k p =
    let b = g.buffers p in
    let peer = if g.is_tcp then 0 else b.addr in
    count_operation
      (count_request (number_send g k p) (Request.send (g.sockets k).s (contents b) peer)) k

-- The next receive of a connection.
abbrev pub received : World → (sock : ℕ) → World
received g c = after_recv (with_buffer g g.buffer_size) c g.heap_next

abbrev pub with_socket : World → (s af : ℕ) → World
with_socket g s af = set_socket (allocated g) g.heap_next (record {
  s = s;
  af = af;
  b_closing = false;
  outstanding_ops = 0;
  last_send_issued = 0;
  io_count_issued = if g.is_tcp then 1 else 0;
  out_of_order_sends = [];
  freed = false;
})

module _ (api : ℕ → Answer) (good : (n : ℕ) → is_success (api n) ≡ true) where
  posted : (n : ℕ) → is_posted (api n) ≡ true
  posted n = ground (arith, good n)

  allocate-good : (g : World) → allocate api g ≡ some (g.heap_next, allocated g)
  unfolding allocate
  allocate-good g = ground (arith, good g.calls)

  pub get_buffer_obj-good :
      (g : World) (n : ℕ) → get_buffer_obj api g n ≡ some (g.heap_next, with_buffer g n)
  unfolding get_buffer_obj
  get_buffer_obj-good g n = rw (allocate-good g, allocate-good (allocated g)) refl

  pub get_socket_obj-good :
      (g : World) (s af : ℕ) → get_socket_obj api g s af ≡ some (g.heap_next, with_socket g s af)
  unfolding get_socket_obj
  get_socket_obj-good g s af = rw (allocate-good g) refl

  pub post_recv-good : (g : World) (k p : ℕ) → post_recv api g k p ≡ (after_recv g k p, true)
  unfolding post_recv number_receive count_operation
  post_recv-good g k p = rw (posted g.calls) refl

  received-heap : (g : World) (c : ℕ) → (received g c).heap_next ≡ g.heap_next + 2
  unfolding number_receive count_operation
  received-heap g c = (omega arith)

  received-issued :
      (g : World) (c : ℕ)
      → (g.sockets c).io_count_issued + 1 < 2 ^ 32
      → ((received g c).sockets c).io_count_issued ≡ suc (g.sockets c).io_count_issued
  unfolding number_receive count_operation
  received-issued g c b = (ground arith)

  received-Started :
      (g : World) (c : ℕ)
      → (g.sockets c).outstanding_ops + 1 < 2 ^ 32
      → Started c 1 g (received g c)
  unfolding number_receive count_operation
  received-Started g c o = record {
    numbered = (ap (λ x. x ∷ []) (ground arith));
    outstanding = (ground arith);
    last = (ground arith);
    handle = (ground arith);
    waiting = (ground arith);
    older = λ q h. (ground arith);
    others = λ k h. (ground arith);
  }

  Started-none : (c : ℕ) (g : World) → Started c 0 g g
  Started-none c g = record {
    numbered = refl;
    outstanding = omega arith;
    last = refl;
    handle = refl;
    waiting = refl;
    older = λ q h. refl;
    others = λ k h. refl;
  }

  Started-step :
      (c n : ℕ) (g h i : World)
      → Started c 1 g h
      → h.heap_next ≡ g.heap_next + 2
      → (h.sockets c).io_count_issued ≡ suc (g.sockets c).io_count_issued
      → Started c n h i
      → Started c (suc n) g i
  Started-step c n g h i a heap issued b = record {
    numbered = ap₂ ◌∷◌ (b.older g.heap_next (omega (arith, heap)) ∙ cons_head a.numbered) (
        ap (λ x. map (io_order_of i) (buffers_from x n)) (sym heap)
        ∙ b.numbered
        ∙ ap (λ m. count_from m n) issued);
    outstanding = omega (arith, a.outstanding, b.outstanding);
    last = b.last ∙ a.last;
    handle = b.handle ∙ a.handle;
    waiting = b.waiting ∙ a.waiting;
    older = λ q l. b.older q (omega (arith, heap, l)) ∙ a.older q l;
    others = λ k l. b.others k l ∙ a.others k l;
  }

  post_receives-step :
      (g : World) (c n : ℕ) → post_receives api g c (suc n) ≡ post_receives api (received g c) c n
  unfolding post_receives
  post_receives-step g c n =
      let next : World × Bool → Option (World × Bool) = λ r. elim r.1 [
        | true ↦ post_receives api r.0 c n
        | false ↦ some (free_buffer_obj r.0 g.heap_next, true)
      ] in
      rw (get_buffer_obj-good g g.buffer_size)
        (ap next (post_recv-good (with_buffer g g.buffer_size) c g.heap_next))

  pub post_receives-Started :
      (g : World) (c n : ℕ)
      → (g.sockets c).io_count_issued + n < 2 ^ 32
      → (g.sockets c).outstanding_ops + n < 2 ^ 32
      → (h : World) × (post_receives api g c n ≡ some (h, false)) × Started c n g h
  unfolding post_receives
  post_receives-Started g c zero b o = (g, refl, Started-none c g)
  post_receives-Started g c (suc n) b o =
      let one = received-Started g c (omega arith) in
      let heap = received-heap g c in
      let issued = received-issued g c (omega arith) in
      let (h, run, more) =
        post_receives-Started (received g c) c n (omega (arith, issued))
          (omega (arith, one.outstanding)) in
      (h, post_receives-step g c n ∙ run, Started-step c n g (received g c) h one heap issued more)

  -- A send of a client is numbered and posted.
  pub post_send-good : (g : World) (k p : ℕ) → post_send api g k p ≡ (after_send g k p, true)
  unfolding post_send number_send count_operation
  post_send-good g k p = rw (posted g.calls) refl
