-- ===== src/Select/Transfer/Receiving.antt =====
-- `ReceivePendingData` of chapter05/nonblocking/server/nbserver.cpp on a stream.
use network_programming_for.Base.{
  ℕ, ◌+◌, ◌≤◌, ◌≡◌, ◌∙◌, sym, ap, subst, refl, Bool, true, false, List, [], ◌∷◌, ◌++◌, ◌==◌,
  if◌then◌else◌, Bool-cases, inl, inr, drop, replicate, length, arith, append-nil, append_assoc,
  take-append, length-append,
}
use network_programming_for.Select.State.{
  NbBuffer, NbSystem, Received as Answer, arrived, refused, receives, NbWorld, note_call,
  put_socket,
}
use network_programming_for.Select.Objects.{get_buffer_obj, enqueue_buffer_obj}
use network_programming_for.Select.Transfer.{
  would_block, queue_of, set_queue, is_idle, close_socket, count_received, filled_buffer,
  receive_nothing, receive_into, receive_pending_data,
}
use network_programming_for.Select.Transfer.Streams.{
  received, sent, bytes_of, queue_bytes, IsFilled, Ends, Touches, Touches-trans, Touches-counters,
  Touches-close, Touches-receive, Touches-put, own_call,
}
use network_programming_for.Select.Transfer.Sending.{queue_of-set}

-- What an object has received is what was sent for it and what it still holds.
abbrev pub Echoed : NbWorld → (sock : ℕ) → Type 0
Echoed g k = received k g.trace ≡ sent k g.trace ++ queue_bytes (queue_of g k)

abbrev pub Received : (k : ℕ) → NbWorld → NbWorld × Bool → Type 0
Received k g (h, ret) = Touches k g h × IsFilled (queue_of h k) × Echoed h k

queue_bytes-append :
    (q : List NbBuffer) (b : NbBuffer) → queue_bytes (q ++ b ∷ []) ≡ queue_bytes q ++ bytes_of b
queue_bytes-append [] b = append-nil (bytes_of b)
queue_bytes-append (c ∷ q) b =
    ap (◌++◌ (bytes_of c)) (queue_bytes-append q b)
    ∙ sym (append_assoc (bytes_of c) (queue_bytes q) (bytes_of b))

at_tail : (q : List NbBuffer) (b : NbBuffer) → enqueue_buffer_obj q b false ≡ q ++ b ∷ []
unfolding enqueue_buffer_obj
at_tail [] b = refl
at_tail (c ∷ q) b = refl

IsFilled-append :
    (q : List NbBuffer) (b : NbBuffer)
    → IsFilled q
    → b.buflen ≤ length b.memory
    → IsFilled (q ++ b ∷ [])
IsFilled-append [] b f h = (h, tt)
IsFilled-append (c ∷ q) b f h = (f.0, IsFilled-append q b f.1 h)

module _ (sys : NbSystem) (k : ℕ) (b : NbBuffer) where
  -- Nothing came.
  nothing_received :
      (g : NbWorld)
      → IsFilled (queue_of g k)
      → Echoed g k
      → Received k g (note_call g (receives k []), false)
  nothing_received g full e =
      (Touches-receive k g [], full, own_call k (received k g.trace) [] ∙ append-nil _ ∙ e)

  then_closed : (g h : NbWorld) → Received k g (h, false) → Received k g (close_socket h k, true)
  then_closed g h (touched, full, e) = (Touches-trans touched (Touches-close k h), full, e)

  at_end_of_stream :
      (g h : NbWorld) (peer : ℕ)
      → h.is_tcp ≡ true
      → Received k g (h, false)
      → Received k g (receive_nothing h k b peer)
  unfolding receive_nothing
  at_end_of_stream g h peer tcp (touched, full, e) =
      let i = put_socket h k (record (h.sockets k) { closing = true }) in
      let same : queue_of i k ≡ queue_of h k = ground arith in
      let closing : Received k g (i, false) = (
        Touches-trans touched (Touches-put k h true (queue_of h k)),
        subst IsFilled (sym same) full,
        e ∙ ap (λ q. sent k h.trace ++ queue_bytes q) (sym same),
      ) in
      let ended : Received k g
          (if is_idle (queue_of h k) then (close_socket i k, true) else (i, false)) =
        elim (Bool-cases (is_idle (queue_of h k))) [
          | inl idle ↦ rw idle (then_closed g i closing)
          | inr busy ↦ rw busy closing
        ] in
      subst
        (λ c. Received k g (
          let after =
            if c
            then queue_of h k
            else enqueue_buffer_obj (queue_of h k) (filled_buffer false b [] peer) false in
          let j = put_socket h k (record (h.sockets k) { pending = after; closing = true }) in
          if is_idle after then (close_socket j k, true) else (j, false)))
        (sym tcp) ended

  bytes_received :
      (g : NbWorld) (x : ℕ) (xs : List ℕ) (peer : ℕ)
      → IsFilled (queue_of g k)
      → Echoed g k
      → Received k g (
        set_queue
            (count_received (note_call g (receives k (x ∷ xs))) (length (x ∷ xs)))
            k
            (enqueue_buffer_obj (queue_of g k) (filled_buffer g.is_tcp b (x ∷ xs) peer) false),
        false,
      )
  bytes_received g x xs peer full e =
      let c = filled_buffer g.is_tcp b (x ∷ xs) peer in
      let queue = enqueue_buffer_obj (queue_of g k) c false in
      let g₁ = note_call g (receives k (x ∷ xs)) in
      let g₂ = count_received g₁ (length (x ∷ xs)) in
      let more = drop (length (x ∷ xs)) b.memory in
      let holds : queue_of (set_queue g₂ k queue) k ≡ queue_of g k ++ c ∷ [] =
        queue_of-set g₂ k queue ∙ at_tail (queue_of g k) c in
      let counted : Touches k g₁ g₂ = Touches-counters k g₁ _ _ _ _ _ in
      let bytes : queue_bytes (queue_of g k ++ c ∷ []) ≡ queue_bytes (queue_of g k) ++ x ∷ xs =
        queue_bytes-append (queue_of g k) c
        ∙ ap (◌++◌ (queue_bytes (queue_of g k))) (take-append (x ∷ xs) more) in
      (
        Touches-trans (Touches-receive k g (x ∷ xs))
            (Touches-trans counted (Touches-put k g₂ (g.sockets k).closing queue)),
        subst IsFilled (sym holds)
            (IsFilled-append (queue_of g k) c full (omega (arith, length-append (x ∷ xs) more))),
        own_call k (received k g.trace) (x ∷ xs)
            ∙ ap (λ l. l ++ x ∷ xs) e
            ∙ append_assoc (sent k g.trace) (queue_bytes (queue_of g k)) (x ∷ xs)
            ∙ ap (◌++◌ (sent k g.trace)) (sym bytes ∙ ap queue_bytes (sym holds)),
      )

  received_into :
      (g : NbWorld) (answer : Answer)
      → sys.recv g.calls ≡ answer
      → g.is_tcp ≡ true
      → IsFilled (queue_of g k)
      → Echoed g k
      → Received k g (receive_into sys g k b)
  unfolding receive_into
  received_into g (refused error) a tcp full e =
      let none = nothing_received g full e in
      elim (Bool-cases (error == would_block)) [
        | inl again ↦ rw (a, receive_into, again) none
        | inr bad ↦ rw (a, receive_into, bad) (then_closed g _ none)
      ]
  received_into g (arrived [] peer) a tcp full e =
      rw (a, receive_into) (at_end_of_stream g _ peer tcp (nothing_received g full e))
  received_into g (arrived (x ∷ xs) peer) a tcp full e =
      rw (a, receive_into) (bytes_received g x xs peer full e)

-- ReceivePendingData ends, and the object has received what was sent for it and what it holds.
pub receive_pending_data-Received :
    (sys : NbSystem) (g : NbWorld) (k : ℕ)
    → g.is_tcp ≡ true
    → IsFilled (queue_of g k)
    → Echoed g k
    → Ends (Received k g) (receive_pending_data sys g k)
unfolding receive_pending_data get_buffer_obj
receive_pending_data-Received sys g k tcp full e =
    let n = g.buffer_size in
    let b : NbBuffer = record { memory = replicate n 0; buflen = n; addr = 0 } in
    let g₁ = record g { calls = g.calls + 2 } in
    let (touched, filled, echoed) = received_into sys k b g₁ _ refl tcp full e in
    let counted : Touches k g g₁ = Touches-counters k g _ _ _ _ _ in
    elim (Bool-cases (sys.memory g.calls)) [
      | inr full ↦ rw full tt
      | inl one ↦ elim (Bool-cases (sys.memory (g.calls + 1))) [
        | inr full ↦ rw (one, full) tt
        | inl two ↦ rw (one, two) (Touches-trans counted touched, filled, echoed)
      ]
    ]
