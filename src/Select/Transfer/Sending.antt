-- ===== src/Select/Transfer/Sending.antt =====
-- `SendPendingData` of chapter05/nonblocking/server/nbserver.cpp on a stream, where every send takes all
-- that it is offered or fails.
use network_programming_for.Base.{
  ℕ, suc, ◌+◌, ◌-◌, ◌≤◌, ◌≡◌, ◌∙◌, sym, ap, ap₂, subst, refl, Bool, true, false, List, [], ◌∷◌,
  ◌++◌, ◌==◌, ◌&&◌, if◌then◌else◌, Bool-cases, ◌⊎◌, inl, inr, take, drop, replicate, length, arith,
  append-nil, append_assoc, take_all, take-append, length-take, length-append,
}
use network_programming_for.Select.State.{
  NbBuffer, NbSystem, taken, unsent, sends, NbWorld, note_call, Flow, going, exited, stuck, ◌>>=◌,
}
use network_programming_for.Select.Objects.{get_buffer_obj, enqueue_buffer_obj}
use network_programming_for.Select.Transfer.{
  would_block, queue_of, set_queue, is_idle, SendEnd, all_sent, left_over, failed, copied_buffer,
  send_buffer, send_datagram, send_one, send_queue, close_if_idle, send_pending_data,
}
use network_programming_for.Select.Transfer.Streams.{
  received, sent, bytes_of, queue_bytes, IsFilled, Ends, Ends-map, Ends->>=, Touches, Touches-refl,
  Touches-trans, Touches-counters, Touches-close, Touches-send, Touches-put, own_call,
}

-- Every send takes all that it is offered, or fails.
abbrev pub IsWhole : NbSystem → Type 0
IsWhole sys =
    (n : ℕ) (b : List ℕ)
    → (sys.send n b ≡ taken (length b)) ⊎ ((error : ℕ) × (sys.send n b ≡ unsent error))

-- What became of one buffer: it was sent, it is kept, or the socket failed.
abbrev SentOrKept : (k : ℕ) → NbBuffer → NbWorld → NbWorld × SendEnd → Type 0
SentOrKept k b g (h, all_sent) = sent k h.trace ≡ sent k g.trace ++ bytes_of b
SentOrKept k b g (h, left_over rest) =
    (sent k h.trace ≡ sent k g.trace)
    × (bytes_of rest ≡ bytes_of b)
    × (rest.buflen ≤ length rest.memory)
SentOrKept k b g (h, failed) = sent k h.trace ≡ sent k g.trace

abbrev Served : (k : ℕ) → NbBuffer → NbWorld → NbWorld × SendEnd → Type 0
Served k b g r = Touches k g r.0 × (received k r.0.trace ≡ received k g.trace) × SentOrKept k b g r

none_taken :
    (k : ℕ) (g : NbWorld) (piece : List ℕ) → sent k (sends k piece 0 0 ∷ g.trace) ≡ sent k g.trace
none_taken k g piece = own_call k (sent k g.trace) (take 0 piece) ∙ append-nil (sent k g.trace)

all_taken :
    (k : ℕ) (g : NbWorld) (piece : List ℕ)
    → sent k (sends k piece 0 (length piece) ∷ g.trace) ≡ sent k g.trace ++ piece
all_taken k g piece =
    own_call k (sent k g.trace) (take (length piece) piece)
    ∙ ap (◌++◌ (sent k g.trace)) (take_all (length piece) piece (omega arith))

copied_bytes :
    (b c : NbBuffer)
    → length (bytes_of b) ≡ b.buflen
    → c.buflen ≡ b.buflen
    → let d = copied_buffer c (bytes_of b) in
      (bytes_of d ≡ bytes_of b) × (d.buflen ≤ length d.memory)
copied_bytes b c long same =
    let piece = bytes_of b in
    let rest = drop (length piece) c.memory in
    (
      ap (λ n. take n (piece ++ rest)) (same ∙ sym long) ∙ take-append piece rest,
      omega (arith, length-append piece rest, long, same),
    )

module _ (sys : NbSystem) where
  -- The send would block.
  kept_rest :
      (g : NbWorld) (k : ℕ) (b : NbBuffer)
      → length (bytes_of b) ≡ b.buflen
      → Ends (Served k b g) (
          get_buffer_obj sys (note_call g (sends k (bytes_of b) 0 0)) b.buflen >>= λ r.
          going (r.0, left_over (copied_buffer r.1 (bytes_of b))))
  unfolding get_buffer_obj
  kept_rest g k b long =
      let g₁ = note_call g (sends k (bytes_of b) 0 0) in
      let fresh : NbBuffer = record {
        memory = replicate b.buflen 0;
        buflen = b.buflen;
        addr = 0;
      } in
      let (same, room) = copied_bytes b fresh long refl in
      elim (Bool-cases (sys.memory g₁.calls)) [
        | inr full ↦ rw full tt
        | inl one ↦ elim (Bool-cases (sys.memory (g₁.calls + 1))) [
          | inr full ↦ rw (one, full) tt
          | inl two ↦
              rw (one, two)
                (
                  Touches-trans (Touches-send k g (bytes_of b) 0 0) (
                      Touches-counters k g₁ g.bytes_read g.bytes_sent g.bytes_read_last
                        g.bytes_sent_last (g₁.calls + 2)),
                  refl,
                  (none_taken k g (bytes_of b), same, room),
                )
        ]
      ]

  buffer_sent :
      IsWhole sys
      → (fuel : ℕ) (g : NbWorld) (k : ℕ) (b : NbBuffer) → b.buflen ≤ length b.memory
      → Ends (Served k b g) (send_buffer sys (suc (suc fuel)) g k b b.buflen 0)
  unfolding send_buffer
  buffer_sent whole fuel g k b full =
      let piece = bytes_of b in
      let long : length piece ≡ b.buflen = omega (arith, length-take b.buflen b.memory) in
      elim (Bool-cases (b.buflen == 0)) [
        | inl none_left ↦
            let zero_long : b.buflen ≡ 0 = ground (arith, none_left) in
            rw (none_left, send_buffer)
              (
                Touches-refl k g,
                refl,
                sym (append-nil (sent k g.trace))
                    ∙ ap (λ n. sent k g.trace ++ take n b.memory) (sym zero_long),
              )
        | inr some_left ↦ elim (whole g.calls piece) [
          | inl all ↦
              let done : (b.buflen - length piece == 0) ≡ true = ground (arith, long) in
              rw (some_left, send_buffer, all, done, send_buffer)
                (
                  Touches-trans (Touches-send k g piece 0 (length piece))
                      (Touches-counters k _ _ _ _ _ _),
                  refl,
                  all_taken k g piece,
                )
          | inr (error, refused) ↦ elim (Bool-cases (error == would_block)) [
            | inl again ↦ rw (some_left, send_buffer, refused, again) (kept_rest g k b long)
            | inr bad ↦
                rw (some_left, send_buffer, refused, bad)
                  (Touches-send k g piece 0 0, refl, none_taken k g piece)
          ]
        ]
      ]

-- What has been sent and what is still queued make up the stream; of a socket that failed, what has
-- been sent is how the stream starts.
abbrev pub Streams : (k : ℕ) → List ℕ → NbWorld × Bool → Type 0
Streams k stream (h, false) = sent k h.trace ++ queue_bytes (queue_of h k) ≡ stream
Streams k stream (h, true) = (rest : List ℕ) × (sent k h.trace ++ rest ≡ stream)

abbrev pub After : (k : ℕ) → List ℕ → NbWorld → NbWorld × Bool → Type 0
After k stream g r =
    Touches k g r.0
    × (received k r.0.trace ≡ received k g.trace)
    × IsFilled (queue_of r.0 k)
    × Streams k stream r

After-trans :
    (k : ℕ) (a c : List ℕ) (g h : NbWorld) (r : NbWorld × Bool)
    → Touches k g h
    → received k h.trace ≡ received k g.trace
    → a ≡ c
    → After k a h r
    → After k c g r
After-trans k a c g h r t same e (touched, got, full, streams) =
    (Touches-trans t touched, got ∙ same, full, subst (λ s. Streams k s r) e streams)

at_head : (q : List NbBuffer) (b : NbBuffer) → enqueue_buffer_obj q b true ≡ b ∷ q
unfolding enqueue_buffer_obj
at_head [] b = refl
at_head (c ∷ q) b = refl

pub queue_of-set : (g : NbWorld) (k : ℕ) (q : List NbBuffer) → queue_of (set_queue g k q) k ≡ q
queue_of-set g k q = ground arith

module _ (sys : NbSystem) (fuel : ℕ) (k : ℕ) where
  After-buffer :
      (g : NbWorld) (b : NbBuffer) (q : List NbBuffer) (out : Flow (NbWorld × SendEnd))
      → IsFilled q
      → send_one sys fuel g k b ≡ out
      → Ends (Served k b g) out
      → ((h : NbWorld)
          → Touches k g h
          → Ends (After k (sent k h.trace ++ queue_bytes q) h) (send_queue sys fuel h k q))
      → Ends
          (After k (sent k g.trace ++ (bytes_of b ++ queue_bytes q)) g)
          (send_queue sys fuel g k (b ∷ q))
  unfolding send_queue
  After-buffer g b q exited full e served rest = rw (e, send_queue) tt
  After-buffer g b q stuck full e served rest = absurd served
  After-buffer g b q (going (h, all_sent)) full e (touched, got, went) rest =
      let all = sent k g.trace ++ (bytes_of b ++ queue_bytes q) in
      let part = sent k h.trace ++ queue_bytes q in
      let same : part ≡ all =
        ap (λ l. l ++ queue_bytes q) went
        ∙ append_assoc (sent k g.trace) (bytes_of b) (queue_bytes q) in
      rw (e, send_queue)
        (Ends-map (After k part h) (After k all g) (send_queue sys fuel h k q)
          (λ r. After-trans k part all g h r touched got same) (rest h touched))
  After-buffer g b q (going (h, left_over kept)) full e (touched, got, (went, same, room)) rest =
      let queue = enqueue_buffer_obj q kept true in
      let holds : queue_of (set_queue h k queue) k ≡ kept ∷ q =
        queue_of-set h k queue ∙ at_head q kept in
      rw (e, send_queue)
        (
          Touches-trans touched (Touches-put k h (h.sockets k).closing queue),
          got,
          subst IsFilled (sym holds) (room, full),
          ap₂ ◌++◌ went (ap queue_bytes holds ∙ ap (λ l. l ++ queue_bytes q) same),
        )
  After-buffer g b q (going (h, failed)) full e (touched, got, went) rest =
      rw (e, send_queue)
        (
          Touches-trans touched (Touches-put k h (h.sockets k).closing q),
          got,
          subst IsFilled (sym (queue_of-set h k q)) full,
          (bytes_of b ++ queue_bytes q, ap (λ l. l ++ (bytes_of b ++ queue_bytes q)) went),
        )

  on_stream :
      (g : NbWorld) (b : NbBuffer)
      → g.is_tcp ≡ true
      → send_one sys fuel g k b ≡ send_buffer sys fuel g k b b.buflen 0
  unfolding send_one
  on_stream g b t =
      ap (λ c. if c then send_buffer sys fuel g k b b.buflen 0 else going (send_datagram sys g k b))
        t

module _ (sys : NbSystem) (whole : IsWhole sys) (fuel : ℕ) (k : ℕ) where
  queue_sent :
      (g : NbWorld) (q : List NbBuffer)
      → g.is_tcp ≡ true
      → IsFilled q
      → Ends (After k (sent k g.trace ++ queue_bytes q) g) (send_queue sys (suc (suc fuel)) g k q)
  unfolding send_queue
  queue_sent g [] t full = (
    Touches-put k g (g.sockets k).closing [],
    refl,
    subst IsFilled (sym (queue_of-set g k [])) tt,
    ap (λ l. sent k g.trace ++ queue_bytes l) (queue_of-set g k []),
  )
  queue_sent g (b ∷ q) t full =
      After-buffer sys (suc (suc fuel)) k g b q _ full.1 (on_stream sys (suc (suc fuel)) k g b t)
        (buffer_sent sys whole fuel g k b full.0)
        (λ h touched. queue_sent h q (touched.tcp ∙ t) full.1)

  closed_if_idle :
      (g : NbWorld) (stream : List ℕ) (r : NbWorld × Bool)
      → After k stream g r
      → After k stream g (close_if_idle r.0 k r.1)
  unfolding close_if_idle
  closed_if_idle g stream (h, ret) (touched, got, full, streams) =
      let rest : (rest : List ℕ) × (sent k h.trace ++ rest ≡ stream) = some_rest ret streams in
      elim (Bool-cases (is_idle (queue_of h k) && (h.sockets k).closing)) [
        | inl closes_it ↦ rw closes_it (Touches-trans touched (Touches-close k h), got, full, rest)
        | inr stays ↦ rw stays (touched, got, full, streams)
      ]
    where
      some_rest :
          (ret : Bool)
          → Streams k stream (h, ret)
          → (rest : List ℕ) × (sent k h.trace ++ rest ≡ stream)
      some_rest false e = (queue_bytes (queue_of h k), e)
      some_rest true e = e

  -- SendPendingData ends, and the stream is what it was.
  pub send_pending_data-After :
      (g : NbWorld)
      → g.is_tcp ≡ true
      → IsFilled (queue_of g k)
      → Ends
          (After k (sent k g.trace ++ queue_bytes (queue_of g k)) g)
          (send_pending_data sys (suc (suc fuel)) g k)
  unfolding send_pending_data
  send_pending_data-After g t full =
      let stream = sent k g.trace ++ queue_bytes (queue_of g k) in
      Ends->>= (After k stream g) (After k stream g)
        (send_queue sys (suc (suc fuel)) g k (queue_of g k)) (λ r. going (close_if_idle r.0 k r.1))
        (λ r. closed_if_idle g stream r) (queue_sent g (queue_of g k) t full)
