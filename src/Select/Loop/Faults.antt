-- ===== src/Select/Loop/Faults.antt =====
-- Where `main` of chapter05/nonblocking/server/nbserver.cpp gives up more than it means to: an empty
-- datagram, a send that fails, and the object behind a removed one.
use network_programming_for.Base.{
  ℕ, ◌+◌, ◌≡◌, ◌≢◌, ◌∙◌, ap, refl, Bool, true, false, List, [], ◌∷◌, ◌++◌, ◌==◌, ◌&&◌,
  if◌then◌else◌, arith, null, replicate, Chain-at,
}
use network_programming_for.Select.State.{
  NbBuffer, NbSystem, arrived, taken, NbCall, NbWorld, put_socket, note_call, Flow, going, ◌>>=◌,
}
use network_programming_for.Select.Objects.{
  get_buffer_obj, enqueue_buffer_obj, free_socket_obj, remove_socket_obj,
}
use network_programming_for.Select.Objects.Links.{next_of, IsOpen}
use network_programming_for.Select.Objects.Removal.{remove_socket_obj-IsOpen}
use network_programming_for.Select.Transfer.{
  queue_of, set_queue, is_idle, close_socket, filled_buffer, receive_nothing, receive_into,
  receive_pending_data, all_sent, send_datagram, send_one, send_queue, close_if_idle,
  send_pending_data,
}
use network_programming_for.Select.Transfer.Streams.{
  Touches, Touches-trans, Touches-counters, Touches-close, Touches-receive, Touches-send,
  Touches-put, IsOpen-Touches,
}
use network_programming_for.Select.Loop.{
  is_set, remove_and_advance, unless_broken, send_part, read_client, read_event,
}

-- There is memory for the next buffer.
abbrev pub HasMemory : NbSystem → NbWorld → Type 0
HasMemory sys g = (sys.memory g.calls ≡ true) × (sys.memory (g.calls + 1) ≡ true)

abbrev pub fresh_buffer : NbWorld → NbBuffer
fresh_buffer g = record { memory = replicate g.buffer_size 0; buflen = g.buffer_size; addr = 0 }

abbrev pub with_buffer : NbWorld → NbWorld
with_buffer g = record g { calls = g.calls + 2 }

pub received_into :
    (sys : NbSystem) (g : NbWorld) (k : ℕ)
    → HasMemory sys g
    → receive_pending_data sys g k ≡ going (receive_into sys (with_buffer g) k (fresh_buffer g))
unfolding receive_pending_data get_buffer_obj
received_into sys g k (one, two) = rw (one, two) refl

-- The removal of an object that was served.
abbrev pub Removed : (k : ℕ) → (xs ys : List ℕ) → NbWorld → NbWorld → Type 0
Removed k xs ys g h = (h.freed ≡ k ∷ g.freed) × IsOpen h (xs ++ ys)

pub Removed-after :
    (g h : NbWorld) (k : ℕ) (xs ys : List ℕ)
    → Touches k g h
    → IsOpen g (xs ++ k ∷ ys)
    → let r = remove_and_advance h k in
      (r.1 ≡ next_of g k) × (r.0.trace ≡ h.trace) × Removed k xs ys g r.0
unfolding remove_and_advance free_socket_obj remove_socket_obj
Removed-after g h k xs ys t o =
    let open_list = remove_socket_obj-IsOpen h k xs ys (IsOpen-Touches k g h (xs ++ k ∷ ys) t o) in
    let freed = t.freed in (t.next, ground arith, (ground (arith, freed), open_list))

module _ (sys : NbSystem) (g : NbWorld) (k peer : ℕ) where
  abbrev empty_buffer : NbBuffer
  empty_buffer = filled_buffer false (fresh_buffer g) [] peer

  -- The world after the empty datagram was received, and after it was sent back.
  abbrev with_datagram : NbWorld
  with_datagram =
      let g₁ = note_call (with_buffer g) (NbCall.receives k []) in
      put_socket g₁ k (record (g.sockets k) { pending = empty_buffer ∷ []; closing = true })

  abbrev without_datagram : (rc : ℕ) → NbWorld
  without_datagram rc = set_queue (note_call with_datagram (NbCall.sends k [] peer rc)) k []

  empty_received :
      g.is_tcp ≡ false
      → HasMemory sys g
      → queue_of g k ≡ []
      → sys.recv (g.calls + 2) ≡ arrived [] peer
      → receive_pending_data sys g k ≡ going (with_datagram, false)
  unfolding receive_into receive_nothing enqueue_buffer_obj
  empty_received udp room idle came =
      received_into sys g k room ∙ rw (came, receive_into) (stored g.is_tcp (queue_of g k) udp idle)
    where
      stored :
          (tcp : Bool) (q : List NbBuffer)
          → tcp ≡ false
          → q ≡ []
          → ◌≡◌ {A = Flow (NbWorld × Bool)}
              (let after = if tcp then q else enqueue_buffer_obj q empty_buffer false in
                let g₁ = note_call (with_buffer g) (NbCall.receives k []) in
                let g₂ =
                  put_socket g₁ k (record (g.sockets k) { pending = after; closing = true }) in
                going (if is_idle after then (close_socket g₂ k, true) else (g₂, false)))
              (going (with_datagram, false))
      stored tcp q e f = rw (e, f) refl

  datagram_sent :
      (fuel rc : ℕ)
      → g.is_tcp ≡ false
      → sys.send (g.calls + 2 + 1) [] ≡ taken rc
      → send_one sys fuel with_datagram k empty_buffer
        ≡ going (note_call with_datagram (NbCall.sends k [] peer rc), all_sent)
  unfolding send_one send_datagram
  datagram_sent fuel rc udp went = rw udp (rw (went, send_datagram) refl)

  closes_idle :
      (h : NbWorld) (ret : Bool)
      → queue_of h k ≡ []
      → (h.sockets k).closing ≡ true
      → close_if_idle h k ret ≡ (close_socket h k, true)
  unfolding close_if_idle
  closes_idle h ret idle closing =
      ap (λ q. if is_idle q && (h.sockets k).closing then (close_socket h k, true) else (h, ret))
        idle
      ∙ ap (λ c. if c then (close_socket h k, true) else (h, ret)) closing

  empty_sent :
      (fuel rc : ℕ)
      → g.is_tcp ≡ false
      → sys.send (g.calls + 2 + 1) [] ≡ taken rc
      → send_pending_data sys fuel with_datagram k
        ≡ going (close_socket (without_datagram rc) k, true)
  unfolding send_pending_data send_queue
  empty_sent fuel rc udp went =
      let w = with_datagram in
      let holds : queue_of w k ≡ empty_buffer ∷ [] = ground arith in
      ap (λ q. send_queue sys fuel w k q >>= λ r. going (close_if_idle r.0 k r.1)) holds
      ∙ rw (datagram_sent fuel rc udp went, send_queue)
          (ap going (closes_idle (without_datagram rc) false (ground arith) (ground arith)))

  datagram_echoed : (rc : ℕ) → Touches k g (close_socket (without_datagram rc) k)
  datagram_echoed rc =
      let g₁ = note_call (with_buffer g) (NbCall.receives k []) in
      let g₂ = note_call with_datagram (NbCall.sends k [] peer rc) in
      Touches-trans (Touches-counters k g _ _ _ _ _) (
        Touches-trans (Touches-receive k (with_buffer g) []) (
          Touches-trans (Touches-put k g₁ true (empty_buffer ∷ [])) (
            Touches-trans (Touches-send k with_datagram [] peer rc) (
              Touches-trans (Touches-put k g₂ (g₂.sockets k).closing [])
                (Touches-close k (without_datagram rc))))))

-- The part of the body for a client whose receive keeps it.
read_then_send :
    (sys : NbSystem) (fuel : ℕ) (reads : List ℕ) (g h : NbWorld) (k : ℕ)
    → is_set (g.sockets k).s reads ≡ true
    → (g.sockets k).listening ≡ false
    → k ≢ null
    → receive_pending_data sys g k ≡ going (h, false)
    → read_event sys fuel reads g k ≡ send_part sys fuel h k
unfolding read_event read_client
read_then_send sys fuel reads g h k set client alive got =
    let some : (k == null) ≡ false = ground (arith, alive) in rw (set, client, got) (rw some refl)

-- If an empty datagram comes for a listed socket of a UDP server whose queue is empty, there is
-- memory and the datagram is sent back, then the read event closes the handle and takes the object
-- out of the list, which runs on through the others: the server no longer serves that address.
pub empty_datagram-closes :
    (sys : NbSystem) (fuel : ℕ) (reads : List ℕ) (g : NbWorld) (xs : List ℕ) (k : ℕ) (ys : List ℕ)
    (peer rc : ℕ)
    → IsOpen g (xs ++ k ∷ ys)
    → g.is_tcp ≡ false
    → (g.sockets k).listening ≡ false
    → queue_of g k ≡ []
    → is_set (g.sockets k).s reads ≡ true
    → HasMemory sys g
    → sys.recv (g.calls + 2) ≡ arrived [] peer
    → sys.send (g.calls + 2 + 1) [] ≡ taken rc
    → (h : NbWorld) × (read_event sys fuel reads g k ≡ going (h, next_of g k))
      × (h.trace
          ≡ NbCall.closes k (g.sockets k).s
            ∷ NbCall.sends k [] peer rc
            ∷ NbCall.receives k []
            ∷ g.trace)
      × (h.freed ≡ k ∷ g.freed)
      × IsOpen h (xs ++ ys)
empty_datagram-closes sys fuel reads g xs k ys peer rc o udp client idle set room came went =
    let (alive, _) = Chain-at (next_of g) g.socket_list xs k ys o.chain in
    let e = close_socket (without_datagram sys g k peer rc) k in
    let (next, trace, (freed, rest)) =
      Removed-after g e k xs ys (datagram_echoed sys g k peer rc) o in
    let handle : ((without_datagram sys g k peer rc).sockets k).s ≡ (g.sockets k).s =
      ground arith in
    (
      (remove_and_advance e k).0,
      read_then_send sys fuel reads g _ k set client alive
            (empty_received sys g k peer udp room idle came)
          ∙ ap (λ m. m >>= λ r. going (unless_broken k r))
              (empty_sent sys g k peer fuel rc udp went)
          ∙ ap (λ n. going ((remove_and_advance e k).0, n)) next,
      trace
          ∙ ap (λ s. NbCall.closes k s ∷ NbCall.sends k [] peer rc ∷ NbCall.receives k [] ∷ g.trace)
              handle,
      freed,
      rest,
    )
