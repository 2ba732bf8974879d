-- ===== src/EventSelect/Sending/Handles.antt =====
-- The handles of the sockets over `ReceivePendingData`, `SendPendingData` and `FreeSocketObj` of
-- chapter05/WSAEventSelect/server/eventserver.cpp.
use network_programming_for.Base.{
  ℕ, zero, suc, ◌+◌, ◌-◌, ◌≡◌, ◌≢◌, ◌∙◌, ap, refl, true, false, List, [], ◌∷◌, ◌==◌, ◌&&◌, Bool,
  Option, none, some, inl, inr, Bool-cases, arith, take, drop, subst, if◌then◌else◌,
}
use network_programming_for.EventSelect.State.{
  EventBuffer, EventSocket, Sent, taken, unsent, System, EventCall, EventWorld, note_call,
}
use network_programming_for.EventSelect.Sending.{
  would_block, Code, broken, nothing_more, got_data, blocked, set_queue, queue_of, is_idle,
  close_handle, SendEnd, all_sent, left_over, failed, send_buffer, send_datagram, send_one,
  send_queue, enqueue_buffer_obj, close_if_idle, send_pending_data, count_sent,
}

abbrev pub handle_of : EventWorld → (sock : ℕ) → ℕ
handle_of g p = (g.sockets p).s

-- No handle changes, and only that of `k` may.
abbrev pub Quiet : (g h : EventWorld) → Type 0
Quiet g h = (q : ℕ) → handle_of h q ≡ handle_of g q

abbrev pub QuietBut : (k : ℕ) → (g h : EventWorld) → Type 0
QuietBut k g h = (q : ℕ) → k ≢ q → handle_of h q ≡ handle_of g q

-- A send changes no socket object, and the loop over the queue no handle.
abbrev QuietSend : (before : ℕ → EventSocket) → Option (EventWorld × SendEnd) → Type 0
QuietSend f none = Unit {0}
QuietSend f (some (h, e)) = h.sockets ≡ f

abbrev QuietQueue : (before : ℕ → EventSocket) → Option (EventWorld × Code) → Type 0
QuietQueue f none = Unit {0}
QuietQueue f (some (h, c)) = (q : ℕ) → handle_of h q ≡ (f q).s

-- What the two functions leave: a socket that is broken may have lost its handle.
abbrev pub Coded : (k : ℕ) → (before : ℕ → EventSocket) → Option (EventWorld × Code) → Type 0
Coded k f none = Unit {0}
Coded k f (some (h, broken)) = (q : ℕ) → k ≢ q → handle_of h q ≡ (f q).s
Coded k f (some (h, nothing_more)) = (q : ℕ) → handle_of h q ≡ (f q).s
Coded k f (some (h, got_data)) = (q : ℕ) → handle_of h q ≡ (f q).s
Coded k f (some (h, blocked)) = (q : ℕ) → handle_of h q ≡ (f q).s

queue_quiet :
    (g : EventWorld) (k : ℕ) (b : List EventBuffer) (q : ℕ)
    → handle_of (set_queue g k b) q ≡ handle_of g q
queue_quiet g k b q = ground arith

pub closed_quiet : (g : EventWorld) (k : ℕ) → QuietBut k g (close_handle g k)
closed_quiet g k q n = ground arith

Coded-quiet :
    (k : ℕ) (f : ℕ → EventSocket) (h : EventWorld) (c : Code)
    → ((q : ℕ) → handle_of h q ≡ (f q).s)
    → Coded k f (some (h, c))
Coded-quiet k f h broken e = λ q n. e q
Coded-quiet k f h nothing_more e = e
Coded-quiet k f h got_data e = e
Coded-quiet k f h blocked e = e

module _ (sys : System) (k : ℕ) where
  unsent_quiet :
      (g : EventWorld) (b : EventBuffer) (idx nleft fuel error : ℕ)
      → (nleft == 0) ≡ false
      → sys.send g.calls (take nleft (drop idx b.memory)) ≡ unsent error
      → QuietSend g.sockets (send_buffer sys (suc fuel) g k b nleft idx)
  unfolding send_buffer
  unsent_quiet g b idx nleft fuel error more e = elim (Bool-cases (error == would_block)) [
    | inr other ↦ rw (more, send_buffer, e, other) refl
    | inl waits ↦ elim (Bool-cases (sys.memory (g.calls + 1))) [
      | inl room ↦ rw (more, send_buffer, e, waits, room) refl
      | inr full ↦ rw (more, send_buffer, e, waits, full) tt
    ]
  ]

  -- One round, by the answer to the send.
  answer_quiet :
      (fuel : ℕ) (g : EventWorld) (b : EventBuffer) (nleft idx : ℕ) (a : Sent)
      → (nleft == 0) ≡ false
      → sys.send g.calls (take nleft (drop idx b.memory)) ≡ a
      → ((g₁ : EventWorld) (n i : ℕ) → QuietSend g₁.sockets (send_buffer sys fuel g₁ k b n i))
      → QuietSend g.sockets (send_buffer sys (suc fuel) g k b nleft idx)
  unfolding send_buffer
  answer_quiet fuel g b nleft idx (taken rc) more e rest =
      rw (more, send_buffer, e)
        (rest
          (count_sent
            (note_call g (EventCall.sends (g.sockets k).s (take nleft (drop idx b.memory)) 0 rc))
            rc)
          (nleft - rc) (idx + 0))
  answer_quiet fuel g b nleft idx (unsent error) more e rest =
      unsent_quiet g b idx nleft fuel error more e

  send_buffer-quiet :
      (fuel : ℕ) (g : EventWorld) (b : EventBuffer) (nleft idx : ℕ)
      → QuietSend g.sockets (send_buffer sys fuel g k b nleft idx)
  unfolding send_buffer
  send_buffer-quiet zero g b nleft idx = tt
  send_buffer-quiet (suc fuel) g b nleft idx = elim (Bool-cases (nleft == 0)) [
    | inl done ↦ rw (done, send_buffer) refl
    | inr more ↦
        answer_quiet fuel g b nleft idx (sys.send g.calls (take nleft (drop idx b.memory))) more
          refl (λ g₁ n i. send_buffer-quiet fuel g₁ b n i)
  ]

  datagram_quiet :
      (g : EventWorld) (b : EventBuffer) (a : Sent)
      → sys.send g.calls (take b.buflen b.memory) ≡ a
      → (send_datagram sys g k b).0.sockets ≡ g.sockets
  unfolding send_datagram
  datagram_quiet g b (taken rc) e = rw (e, send_datagram) refl
  datagram_quiet g b (unsent error) e = rw (e, send_datagram) refl

  by_kind :
      (fuel : ℕ) (g : EventWorld) (b : EventBuffer) (tcp : Bool)
      → QuietSend g.sockets
          (if tcp then send_buffer sys fuel g k b b.buflen 0 else some (send_datagram sys g k b))
  by_kind fuel g b true = send_buffer-quiet fuel g b b.buflen 0
  by_kind fuel g b false = datagram_quiet g b (sys.send g.calls (take b.buflen b.memory)) refl

  send_one-quiet :
      (fuel : ℕ) (g : EventWorld) (b : EventBuffer) → QuietSend g.sockets (send_one sys fuel g k b)
  unfolding send_one
  send_one-quiet fuel g b = by_kind fuel g b g.is_tcp

  -- The queue behind one buffer, by how the buffer ended.
  queue_goes_on :
      (fuel : ℕ) (g : EventWorld) (b : EventBuffer) (queue : List EventBuffer)
      (o : Option (EventWorld × SendEnd))
      → send_one sys fuel g k b ≡ o
      → QuietSend g.sockets o
      → ((h : EventWorld) → QuietQueue h.sockets (send_queue sys fuel h k queue))
      → QuietQueue g.sockets (send_queue sys fuel g k (b ∷ queue))
  unfolding send_queue
  queue_goes_on fuel g b queue none e same rest = rw (e, send_queue) tt
  queue_goes_on fuel g b queue (some (h, all_sent)) e same rest =
      rw (e, send_queue) (subst (λ f. QuietQueue f (send_queue sys fuel h k queue)) same (rest h))
  queue_goes_on fuel g b queue (some (h, left_over kept)) e same rest =
      rw (e, send_queue)
        (λ q. queue_quiet h k (enqueue_buffer_obj queue kept true) q ∙ ap (λ f. (f q).s) same)
  queue_goes_on fuel g b queue (some (h, failed)) e same rest =
      rw (e, send_queue) (λ q. queue_quiet h k queue q ∙ ap (λ f. (f q).s) same)

  send_queue-quiet :
      (fuel : ℕ) (g : EventWorld) (queue : List EventBuffer)
      → QuietQueue g.sockets (send_queue sys fuel g k queue)
  unfolding send_queue
  send_queue-quiet fuel g [] = queue_quiet g k []
  send_queue-quiet fuel g (b ∷ queue) =
      queue_goes_on fuel g b queue (send_one sys fuel g k b) refl (send_one-quiet fuel g b)
        (λ h. send_queue-quiet fuel h queue)

  idle_coded :
      (f : ℕ → EventSocket) (h : EventWorld) (c : Code)
      → ((q : ℕ) → handle_of h q ≡ (f q).s)
      → Coded k f (some (close_if_idle h k c))
  unfolding close_if_idle
  idle_coded f h c e = elim (Bool-cases (is_idle (queue_of h k) && (h.sockets k).closing)) [
    | inl closes_it ↦ rw closes_it (λ q n. closed_quiet h k q n ∙ e q)
    | inr stays ↦ rw stays (Coded-quiet k f h c e)
  ]

  pending_coded :
      (fuel : ℕ) (g : EventWorld) (o : Option (EventWorld × Code))
      → send_queue sys fuel g k (queue_of g k) ≡ o
      → QuietQueue g.sockets o
      → Coded k g.sockets (send_pending_data sys fuel g k)
  unfolding send_pending_data
  pending_coded fuel g none e same = rw (e, send_pending_data) tt
  pending_coded fuel g (some (h, c)) e same =
      rw (e, send_pending_data) (idle_coded g.sockets h c same)

  pub send_pending_data-Coded :
      (fuel : ℕ) (g : EventWorld) → Coded k g.sockets (send_pending_data sys fuel g k)
  send_pending_data-Coded fuel g =
      pending_coded fuel g (send_queue sys fuel g k (queue_of g k)) refl
        (send_queue-quiet fuel g (queue_of g k))
