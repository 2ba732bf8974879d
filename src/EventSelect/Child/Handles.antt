-- ===== src/EventSelect/Child/Handles.antt =====
-- The handles of the sockets over `HandleIo` of chapter05/WSAEventSelect/server/eventserver.cpp: those that
-- are closed are the ones whose sockets leave the thread.
use network_programming_for.Base.{
  ℕ, zero, suc, ◌≡◌, ◌≢◌, ◌∙◌, ap, sym, subst, refl, true, false, List, [], ◌∷◌, ◌==◌, Bool, NotIn,
  IsDistinct, Option, none, some, inl, inr, ◌⊎◌, Bool-cases, arith, if◌then◌else◌,
}
use network_programming_for.Iocp.State.{invalid_socket}
use network_programming_for.EventSelect.State.{
  EventSocket, arrived, refused, Received, System, EventCall, EventWorld, note_call, put_socket,
}
use network_programming_for.EventSelect.Sending.{
  would_block, Code, broken, nothing_more, got_data, blocked, queue_of, is_idle, close_handle,
  enqueue_buffer_obj, send_pending_data,
}
use network_programming_for.EventSelect.Sending.Handles.{handle_of, Coded, send_pending_data-Coded}
use network_programming_for.EventSelect.Threads.{EventThread, remove_socket_obj, unlink_socket}
use network_programming_for.EventSelect.Handler.{
  carry_on, unless_broken, give_up, remove_and_free, read_event, write_event, close_event,
  filled_buffer, receive_nothing, receive_pending_data, receive_rest, handle_events,
}

nothing_by :
    (k : ℕ) (g : EventWorld) (o : EventSocket) (idle : Bool)
    → o.s ≡ handle_of g k
    → let h = put_socket g k o in
      Coded k g.sockets (some (if idle then (close_handle h k, broken) else (h, nothing_more)))
nothing_by k g o true e = λ q n. ground (arith, n)
nothing_by k g o false e = λ q. ground (arith, e)

received_nothing :
    (k : ℕ) (g : EventWorld) (peer : ℕ) → Coded k g.sockets (some (receive_nothing g k peer))
unfolding receive_nothing
received_nothing k g peer =
    let after =
      if g.is_tcp
      then queue_of g k
      else enqueue_buffer_obj (queue_of g k) (filled_buffer g [] peer) false in
    nothing_by k g (record (g.sockets k) { pending = after; closing = true }) (is_idle after) refl

Coded-trans :
    (k : ℕ) (f : ℕ → EventSocket) (g : EventWorld) (o : Option (EventWorld × Code))
    → ((q : ℕ) → handle_of g q ≡ (f q).s)
    → Coded k g.sockets o
    → Coded k f o
Coded-trans k f g none e c = tt
Coded-trans k f g (some (h, broken)) e c = λ q n. c q n ∙ e q
Coded-trans k f g (some (h, nothing_more)) e c = λ q. c q ∙ e q
Coded-trans k f g (some (h, got_data)) e c = λ q. c q ∙ e q
Coded-trans k f g (some (h, blocked)) e c = λ q. c q ∙ e q

module _ (sys : System) (k : ℕ) where
  answer_coded :
      (g : EventWorld) (r : Received)
      → sys.memory g.calls ≡ true
      → sys.recv g.calls ≡ r
      → Coded k g.sockets (receive_pending_data sys g k)
  unfolding receive_pending_data
  answer_coded g (refused error) room e = elim (Bool-cases (error == would_block)) [
    | inl waits ↦ rw (room, e, waits) (λ q. refl)
    | inr bad ↦ rw (room, e, bad) (λ q n. ground (arith, n))
  ]
  answer_coded g (arrived [] peer) room e =
      rw (room, e) (received_nothing k (note_call g (EventCall.receives (g.sockets k).s)) peer)
  answer_coded g (arrived (x ∷ xs) peer) room e = rw (room, e) (λ q. ground arith)

  receive_pending_data-Coded : (g : EventWorld) → Coded k g.sockets (receive_pending_data sys g k)
  unfolding receive_pending_data
  receive_pending_data-Coded g = elim (Bool-cases (sys.memory g.calls)) [
    | inl room ↦ answer_coded g (sys.recv g.calls) room refl
    | inr full ↦ rw full tt
  ]

  rest_goes_on :
      (fuel : ℕ) (g : EventWorld) (o : Option (EventWorld × Code))
      → receive_pending_data sys g k ≡ o
      → Coded k g.sockets o
      → ((h : EventWorld) → Coded k h.sockets (receive_rest sys fuel h k))
      → Coded k g.sockets (receive_rest sys (suc fuel) g k)
  unfolding receive_rest
  rest_goes_on fuel g none e c more = rw (e, receive_rest) tt
  rest_goes_on fuel g (some (h, broken)) e c more = rw (e, receive_rest) c
  rest_goes_on fuel g (some (h, nothing_more)) e c more = rw (e, receive_rest) c
  rest_goes_on fuel g (some (h, got_data)) e c more =
      rw (e, receive_rest) (Coded-trans k g.sockets h (receive_rest sys fuel h k) c (more h))
  rest_goes_on fuel g (some (h, blocked)) e c more =
      rw (e, receive_rest) (Coded-trans k g.sockets h (receive_rest sys fuel h k) c (more h))

  receive_rest-Coded : (fuel : ℕ) (g : EventWorld) → Coded k g.sockets (receive_rest sys fuel g k)
  unfolding receive_rest
  receive_rest-Coded zero g = tt
  receive_rest-Coded (suc fuel) g =
      rest_goes_on fuel g (receive_pending_data sys g k) refl (receive_pending_data-Coded g)
        (receive_rest-Coded fuel)

-- What a part of the handler leaves of the handles `f`, and of the list of the thread: all as before, or
-- the socket out of the list with its handle closed, and the others as before.
abbrev pub Settles :
    EventThread
    → (sock : ℕ) → (before : ℕ → EventSocket) → Option (EventWorld × EventThread × Bool)
    → Type 0
Settles t k f none = Unit {0}
Settles t k f (some (g, t₁, true)) = (t₁ ≡ t) × ((q : ℕ) → handle_of g q ≡ (f q).s)
Settles t k f (some (g, t₁, false)) =
    ((t₁ ≡ t) × ((q : ℕ) → handle_of g q ≡ (f q).s))
    ⊎ ((t₁.socket_list ≡ unlink_socket t.socket_list k)
        × (handle_of g k ≡ invalid_socket)
        × ((q : ℕ) → k ≢ q → handle_of g q ≡ (f q).s))

module _ (sys : System) (t : EventThread) (k : ℕ) where
  Settles-trans :
      (f : ℕ → EventSocket) (g : EventWorld) (s : Option (EventWorld × EventThread × Bool))
      → ((q : ℕ) → handle_of g q ≡ (f q).s)
      → Settles t k g.sockets s
      → Settles t k f s
  Settles-trans f g none e c = tt
  Settles-trans f g (some (h, t₁, true)) e c = (c.0, λ q. c.1 q ∙ e q)
  Settles-trans f g (some (h, t₁, false)) e (inl (same, c)) = inl (same, λ q. c q ∙ e q)
  Settles-trans f g (some (h, t₁, false)) e (inr (out, closed, c)) =
      inr (out, closed, λ q n. c q n ∙ e q)

  gone :
      (f : ℕ → EventSocket) (g : EventWorld)
      → ((q : ℕ) → k ≢ q → handle_of g q ≡ (f q).s)
      → Settles t k f (give_up sys g t k)
  unfolding remove_and_free remove_socket_obj
  gone f g e = elim (Bool-cases (handle_of g k == invalid_socket)) [
    | inl closed ↦ rw closed (inr (refl, ground (arith, closed), e))
    | inr live ↦ rw live (inr (refl, ground arith, λ q n. ground (arith, n, e q n)))
  ]

  unless_broken-Settles :
      (f : ℕ → EventSocket) (o : Option (EventWorld × Code))
      → Coded k f o
      → Settles t k f (unless_broken sys t k o)
  unless_broken-Settles f none c = tt
  unless_broken-Settles f (some (g, broken)) c = gone f g c
  unless_broken-Settles f (some (g, nothing_more)) c = (refl, c)
  unless_broken-Settles f (some (g, got_data)) c = (refl, c)
  unless_broken-Settles f (some (g, blocked)) c = (refl, c)

  carry_on-Settles :
      (f : ℕ → EventSocket) (s : Option (EventWorld × EventThread × Bool))
      (c : EventWorld → EventThread → Option (EventWorld × EventThread × Bool))
      → Settles t k f s
      → ((g : EventWorld) → Settles t k g.sockets (c g t))
      → Settles t k f (carry_on sys s c)
  carry_on-Settles f none c a b = tt
  carry_on-Settles f (some (g, t₁, true)) c a b =
      subst (λ u. Settles t k f (c g u)) (sym a.0) (Settles-trans f g (c g t) a.1 (b g))
  carry_on-Settles f (some (g, t₁, false)) c a b = a

  sends_after :
      (fuel : ℕ) (g : EventWorld)
      → Settles t k g.sockets (unless_broken sys t k (send_pending_data sys fuel g k))
  sends_after fuel g =
      unless_broken-Settles g.sockets (send_pending_data sys fuel g k)
        (send_pending_data-Coded sys k fuel g)

  reads-Settles :
      (fuel : ℕ) (g : EventWorld) (e : Option ℕ)
      → Settles t k g.sockets (read_event sys fuel g t k e)
  unfolding read_event
  reads-Settles fuel g none = (refl, λ q. refl)
  reads-Settles fuel g (some error) = elim (Bool-cases (error == 0)) [
    | inl fine ↦ rw fine (
        carry_on-Settles g.sockets (unless_broken sys t k (receive_pending_data sys g k))
          (λ g₁ t₁. unless_broken sys t₁ k (send_pending_data sys fuel g₁ k))
          (unless_broken-Settles g.sockets (receive_pending_data sys g k)
            (receive_pending_data-Coded sys k g))
          (sends_after fuel))
    | inr bad ↦ rw bad (gone g.sockets g (λ q n. refl))
  ]

  writes-Settles :
      (fuel : ℕ) (g : EventWorld) (e : Option ℕ)
      → Settles t k g.sockets (write_event sys fuel g t k e)
  unfolding write_event
  writes-Settles fuel g none = (refl, λ q. refl)
  writes-Settles fuel g (some error) = elim (Bool-cases (error == 0)) [
    | inl fine ↦ rw fine (sends_after fuel g)
    | inr bad ↦ rw bad (inl (refl, λ q. refl))
  ]

  closes-Settles :
      (fuel : ℕ) (g : EventWorld) (e : Option ℕ)
      → Settles t k g.sockets (close_event sys fuel g t k e)
  unfolding close_event
  closes-Settles fuel g none = (refl, λ q. refl)
  closes-Settles fuel g (some error) = elim (Bool-cases (error == 0)) [
    | inl fine ↦ rw fine (
        carry_on-Settles g.sockets (unless_broken sys t k (receive_rest sys fuel g k))
          (λ g₁ t₁. unless_broken sys t₁ k (send_pending_data sys fuel g₁ k))
          (unless_broken-Settles g.sockets (receive_rest sys fuel g k)
            (receive_rest-Coded sys k fuel g))
          (sends_after fuel))
    | inr bad ↦ rw bad (gone g.sockets g (λ q n. refl))
  ]

  pub handle_events-Settles :
      (fuel : ℕ) (g : EventWorld) (r : Option (Option ℕ × Option ℕ × Option ℕ))
      → Settles t k g.sockets (handle_events sys fuel g t k r)
  unfolding handle_events
  handle_events-Settles fuel g none = inl (refl, λ q. refl)
  handle_events-Settles fuel g (some (reads, writes, closes)) =
      carry_on-Settles g.sockets
        (carry_on sys (read_event sys fuel g t k reads)
          (λ g₁ t₁. write_event sys fuel g₁ t₁ k writes))
        (λ g₂ t₂. close_event sys fuel g₂ t₂ k closes)
        (carry_on-Settles g.sockets (read_event sys fuel g t k reads)
          (λ g₁ t₁. write_event sys fuel g₁ t₁ k writes) (reads-Settles fuel g reads)
          (λ g₁. writes-Settles fuel g₁ writes))
        (λ g₂. closes-Settles fuel g₂ closes)

-- The sockets of a list whose handle is open.
abbrev pub still_open : EventWorld → List ℕ → List ℕ
still_open g [] = []
still_open g (p ∷ ps) =
    if handle_of g p == invalid_socket then still_open g ps else p ∷ still_open g ps

pub still_open-Quiet :
    (g h : EventWorld) (ps : List ℕ)
    → ((q : ℕ) → handle_of h q ≡ handle_of g q)
    → still_open h ps ≡ still_open g ps
still_open-Quiet g h [] e = refl
still_open-Quiet g h (p ∷ ps) e = rw (e p, still_open-Quiet g h ps e) refl

still_open-others :
    (k : ℕ) (g h : EventWorld) (ps : List ℕ)
    → NotIn k ps
    → ((q : ℕ) → k ≢ q → handle_of h q ≡ handle_of g q)
    → still_open h ps ≡ still_open g ps
still_open-others k g h [] out e = refl
still_open-others k g h (p ∷ ps) out e = rw (e p out.0, still_open-others k g h ps out.1 e) refl

-- A socket leaves the list when its handle is closed.
pub still_open-unlink :
    (k : ℕ) (g h : EventWorld) (ps : List ℕ)
    → IsDistinct ps
    → handle_of h k ≡ invalid_socket
    → ((q : ℕ) → k ≢ q → handle_of h q ≡ handle_of g q)
    → still_open h ps ≡ unlink_socket (still_open g ps) k
unfolding unlink_socket
still_open-unlink k g h [] d c e = refl
still_open-unlink k g h (p ∷ ps) d c e =
    let rest = still_open-unlink k g h ps d.1 c e in
    elim (Bool-cases (k == p)) [
      | inl here ↦
          let same : k ≡ p = ground (arith, here) in
          let shut : (handle_of h p == invalid_socket) ≡ true =
            let s = subst (λ q. handle_of h q ≡ invalid_socket) same c in ground (arith, s) in
          let unlinked : (p == k) ≡ true = ground (arith, here) in
          elim (Bool-cases (handle_of g p == invalid_socket)) [
            | inl before ↦ rw (shut, before) rest
            | inr live ↦
                rw (shut, live, unlinked)
                  (still_open-others k g h ps (subst (λ q. NotIn q ps) (sym same) d.0) e)
          ]
      | inr other ↦
          let apart : k ≢ p = ground (arith, other) in
          let kept : (p == k) ≡ false = ground (arith, other) in
          elim (Bool-cases (handle_of g p == invalid_socket)) [
            | inl before ↦ rw (e p apart, before) rest
            | inr live ↦ rw (e p apart, live, kept) (ap (◌∷◌ p) rest)
          ]
    ]
