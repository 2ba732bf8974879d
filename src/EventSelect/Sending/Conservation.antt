-- ===== src/EventSelect/Sending/Conservation.antt =====
-- `SendPendingData` of chapter05/WSAEventSelect/server/eventserver.cpp where every send takes all of
-- its bytes or none.
use network_programming_for.Base.{
  ℕ, suc, ◌+◌, ◌-◌, ◌≤◌, ◌≡◌, ◌∙◌, sym, ap, ap₂, refl, true, List, [], ◌∷◌, ◌++◌, ◌&&◌, ◌==◌,
  if◌then◌else◌, some, ◌⊎◌, inl, inr, take, length, arith, Bool-cases, append_assoc, append-nil,
  length-take, take_all,
}
use network_programming_for.EventSelect.State.{
  EventBuffer, taken, unsent, System, EventCall, receives, sends, closes, EventWorld, note_call,
}
use network_programming_for.EventSelect.Sending.{
  would_block, Code, nothing_more, blocked, enqueue_buffer_obj, set_queue, queue_of, SendEnd,
  all_sent, left_over, failed, send_buffer, send_datagram, close_if_idle, close_handle, is_idle,
  send_pending_data, send_one, send_queue,
}
use network_programming_for.EventSelect.Sending.Steps.{sent_world, round_done, round_taken}

-- The bytes that the system took, the first ones first.
abbrev pub taken_bytes : List EventCall → List ℕ
taken_bytes [] = []
taken_bytes (receives _ ∷ t) = taken_bytes t
taken_bytes (sends _ piece _ n ∷ t) = taken_bytes t ++ take n piece
taken_bytes (closes _ ∷ t) = taken_bytes t

-- The bytes that a buffer, and a queue, hold.
abbrev pub buffer_bytes : EventBuffer → List ℕ
buffer_bytes b = take b.buflen b.memory

abbrev pub queue_bytes : List EventBuffer → List ℕ
queue_bytes [] = []
queue_bytes (b ∷ q) = buffer_bytes b ++ queue_bytes q

-- No buffer claims more bytes than it has.
abbrev pub IsFilled : List EventBuffer → Type 0
IsFilled [] = Unit {0}
IsFilled (b ∷ q) = (b.buflen ≤ length b.memory) × IsFilled q

-- One buffer is sent, or stays.
abbrev SentOrKept : (k : ℕ) → EventBuffer → EventWorld → EventWorld → SendEnd → Type 0
SentOrKept k b g h all_sent =
    (taken_bytes h.trace ≡ taken_bytes g.trace ++ buffer_bytes b) × (h.is_tcp ≡ g.is_tcp)
SentOrKept k b g h (left_over rest) =
    (taken_bytes h.trace ≡ taken_bytes g.trace) × (buffer_bytes rest ≡ buffer_bytes b)
SentOrKept k b g h failed = ⊥

module _ (sys : System)
    (whole : (n : ℕ) (b : List ℕ)
      → (sys.send n b ≡ taken (length b)) ⊎ (sys.send n b ≡ unsent would_block))
    (room : (n : ℕ) → sys.memory n ≡ true) where
  buffer_sent :
      (fuel : ℕ) (g : EventWorld) (k : ℕ) (b : EventBuffer)
      → b.buflen ≤ length b.memory
      → (h : EventWorld) × (e : SendEnd) × (send_buffer sys (suc (suc fuel)) g k b b.buflen 0
          ≡ some (h, e))
        × SentOrKept k b g h e
  unfolding send_buffer
  buffer_sent fuel g k b full =
      let piece = buffer_bytes b in
      let all_of_it : take (length piece) piece ≡ piece =
        take_all (length piece) piece (omega arith) in
      let long : length piece ≡ b.buflen = omega (arith, length-take b.buflen b.memory) in
      elim (Bool-cases (b.buflen == 0)) [
        | inl none_left ↦
            let zero_long : 0 ≡ b.buflen = ground (arith, none_left) in
            let nothing_held : taken_bytes g.trace ≡ taken_bytes g.trace ++ piece =
              sym (append-nil (taken_bytes g.trace))
              ∙ ap (λ n. taken_bytes g.trace ++ take n b.memory) zero_long in
            (g, all_sent, rw (none_left, send_buffer) refl, (nothing_held, refl))
        | inr some_left ↦ elim (whole g.calls piece) [
          | inl all ↦
              let g₁ = sent_world g k piece (length piece) in
              (
                g₁,
                all_sent,
                round_taken sys (suc fuel) g k b b.buflen 0 (length piece) some_left all
                    ∙ round_done sys fuel g₁ k b (b.buflen - length piece) 0 (omega (arith, long)),
                (ap (◌++◌ (taken_bytes g.trace)) all_of_it, refl),
              )
          | inr none ↦ (
            note_call g (EventCall.sends (g.sockets k).s piece 0 0),
            left_over (record { memory = piece; buflen = b.buflen; addr = 0 }),
            rw (some_left, send_buffer, none, room (g.calls + 1)) refl,
            (append-nil (taken_bytes g.trace), take_all b.buflen piece (omega (arith, long))),
          )
        ]
      ]

  on_stream :
      (fuel : ℕ) (g : EventWorld) (k : ℕ) (b : EventBuffer)
      → g.is_tcp ≡ true
      → send_one sys fuel g k b ≡ send_buffer sys fuel g k b b.buflen 0
  unfolding send_one
  on_stream fuel g k b t =
      ap (λ c. if c then send_buffer sys fuel g k b b.buflen 0 else some (send_datagram sys g k b))
        t

  next_buffer :
      (fuel : ℕ) (g h : EventWorld) (k : ℕ) (b : EventBuffer) (q : List EventBuffer)
      → send_one sys fuel g k b ≡ some (h, all_sent)
      → send_queue sys fuel g k (b ∷ q) ≡ send_queue sys fuel h k q
  unfolding send_queue
  next_buffer fuel g h k b q e = rw (e, send_queue) refl

  put_back :
      (fuel : ℕ) (g h : EventWorld) (k : ℕ) (b kept : EventBuffer) (q : List EventBuffer)
      → send_one sys fuel g k b ≡ some (h, left_over kept)
      → send_queue sys fuel g k (b ∷ q)
        ≡ some (set_queue h k (enqueue_buffer_obj q kept true), blocked)
  unfolding send_queue
  put_back fuel g h k b kept q e = rw (e, send_queue) refl

  at_head : (q : List EventBuffer) (b : EventBuffer) → enqueue_buffer_obj q b true ≡ b ∷ q
  unfolding enqueue_buffer_obj
  at_head [] b = refl
  at_head (c ∷ q) b = refl

  -- What holds of the rest of the queue once one buffer is done with.
  abbrev pub Conserved : (fuel : ℕ) → EventWorld → (sock : ℕ) → List EventBuffer → Type 0
  Conserved fuel g k q =
      (h : EventWorld) × (ret : Code) × (send_queue sys (suc (suc fuel)) g k q ≡ some (h, ret))
      × (taken_bytes h.trace ++ queue_bytes (queue_of h k) ≡ taken_bytes g.trace ++ queue_bytes q)

  pub queue_of-set :
      (g : EventWorld) (k : ℕ) (q : List EventBuffer) → queue_of (set_queue g k q) k ≡ q
  queue_of-set g k q = ground arith

  after_buffer :
      (fuel : ℕ) (g h : EventWorld) (k : ℕ) (b : EventBuffer) (q : List EventBuffer) (e : SendEnd)
      → g.is_tcp ≡ true
      → send_buffer sys (suc (suc fuel)) g k b b.buflen 0 ≡ some (h, e)
      → SentOrKept k b g h e
      → (h.is_tcp ≡ true → Conserved fuel h k q)
      → Conserved fuel g k (b ∷ q)
  after_buffer fuel g h k b q all_sent t run post rest =
      let (i, ret, more, same) = rest (post.1 ∙ t) in
      (
        i,
        ret,
        next_buffer (suc (suc fuel)) g h k b q (on_stream (suc (suc fuel)) g k b t ∙ run) ∙ more,
        same
            ∙ ap (λ l. l ++ queue_bytes q) post.0
            ∙ append_assoc (taken_bytes g.trace) (buffer_bytes b) (queue_bytes q),
      )
  after_buffer fuel g h k b q (left_over kept) t run post rest =
      let queue = enqueue_buffer_obj q kept true in
      (
        set_queue h k queue,
        blocked,
        put_back (suc (suc fuel)) g h k b kept q (on_stream (suc (suc fuel)) g k b t ∙ run),
        ap₂ ◌++◌ post.0 (
            ap queue_bytes (queue_of-set h k queue ∙ at_head q kept)
            ∙ ap (λ l. l ++ queue_bytes q) post.1),
      )
  after_buffer fuel g h k b q failed t run post rest = absurd post

  pub queue_sent :
      (fuel : ℕ) (g : EventWorld) (k : ℕ) (q : List EventBuffer)
      → g.is_tcp ≡ true
      → IsFilled q
      → Conserved fuel g k q
  unfolding send_queue
  queue_sent fuel g k [] t full = (
    set_queue g k [],
    nothing_more,
    refl,
    ap (λ l. taken_bytes g.trace ++ queue_bytes l) (queue_of-set g k []),
  )
  queue_sent fuel g k (b ∷ q) t full =
      let (h, e, run, post) = buffer_sent fuel g k b full.0 in
      after_buffer fuel g h k b q e t run post (λ u. queue_sent fuel h k q u full.1)

  closing_keeps :
      (g : EventWorld) (k : ℕ) (ret : Code)
      → let h = (close_if_idle g k ret).0 in
        taken_bytes h.trace ++ queue_bytes (queue_of h k)
        ≡ taken_bytes g.trace ++ queue_bytes (queue_of g k)
  unfolding close_if_idle
  closing_keeps g k ret =
      let same : queue_of (close_handle g k) k ≡ queue_of g k = ground arith in
      elim (Bool-cases (is_idle (queue_of g k) && (g.sockets k).closing)) [
        | inl closes_it ↦ rw closes_it (ap (λ q. taken_bytes g.trace ++ queue_bytes q) same)
        | inr stays ↦ rw stays refl
      ]

  closed_if_idle :
      (fuel : ℕ) (g h : EventWorld) (k : ℕ) (ret : Code)
      → send_queue sys fuel g k (queue_of g k) ≡ some (h, ret)
      → send_pending_data sys fuel g k ≡ some (close_if_idle h k ret)
  unfolding send_pending_data
  closed_if_idle fuel g h k ret run = rw (run, send_pending_data) refl

  pub send_pending_data-conserves :
      (fuel : ℕ) (g : EventWorld) (k : ℕ)
      → g.is_tcp ≡ true
      → IsFilled (queue_of g k)
      → (h : EventWorld) × (ret : Code) × (send_pending_data sys (suc (suc fuel)) g k
          ≡ some (h, ret))
        × (taken_bytes h.trace ++ queue_bytes (queue_of h k)
            ≡ taken_bytes g.trace ++ queue_bytes (queue_of g k))
  send_pending_data-conserves fuel g k t full =
      let (h, ret, run, same) = queue_sent fuel g k (queue_of g k) t full in
      (
        (close_if_idle h k ret).0,
        (close_if_idle h k ret).1,
        closed_if_idle (suc (suc fuel)) g h k ret run,
        closing_keeps h k ret ∙ same,
      )
