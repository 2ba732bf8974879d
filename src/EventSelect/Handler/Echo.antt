-- ===== src/EventSelect/Handler/Echo.antt =====
-- A read event that `HandleIo` of chapter05/WSAEventSelect/server/eventserver.cpp handles.
use network_programming_for.Base.{
  ℕ, ◌+◌, ◌-◌, ◌≤◌, ◌≡◌, ◌∙◌, sym, ap, subst, refl, Bool, true, false, List, [], ◌∷◌, ◌++◌, ◌==◌,
  some, ◌⊎◌, inl, inr, replicate, length, arith, append_assoc, append-nil, take-append,
  length-append, Bool-cases,
}
use network_programming_for.Iocp.State.{invalid_socket}
use network_programming_for.EventSelect.State.{
  EventBuffer, arrived, taken, unsent, System, EventCall, EventWorld, note_call,
}
use network_programming_for.EventSelect.Sending.{
  would_block, Code, broken, nothing_more, got_data, blocked, enqueue_buffer_obj, set_queue,
  queue_of, close_handle,
}
use network_programming_for.EventSelect.Sending.Conservation.{
  taken_bytes, buffer_bytes, queue_bytes, IsFilled, queue_of-set,
}
use network_programming_for.EventSelect.Threads.{EventThread, remove_socket_obj}
use network_programming_for.EventSelect.Handler.{
  filled_buffer, count_received, receive_pending_data, remove_and_free, unless_broken,
}

-- What has been sent and what is still queued.
abbrev pub stream_of : EventWorld → (sock : ℕ) → List ℕ
stream_of g k = taken_bytes g.trace ++ queue_bytes (queue_of g k)

queue_bytes-append :
    (q : List EventBuffer) (b : EventBuffer)
    → queue_bytes (q ++ b ∷ []) ≡ queue_bytes q ++ buffer_bytes b
queue_bytes-append [] b = append-nil (buffer_bytes b)
queue_bytes-append (c ∷ q) b =
    ap (◌++◌ (buffer_bytes c)) (queue_bytes-append q b)
    ∙ sym (append_assoc (buffer_bytes c) (queue_bytes q) (buffer_bytes b))

at_tail : (q : List EventBuffer) (b : EventBuffer) → enqueue_buffer_obj q b false ≡ q ++ b ∷ []
unfolding enqueue_buffer_obj
at_tail [] b = refl
at_tail (c ∷ q) b = refl

IsFilled-append :
    (q : List EventBuffer) (b : EventBuffer)
    → IsFilled q
    → b.buflen ≤ length b.memory
    → IsFilled (q ++ b ∷ [])
IsFilled-append [] b f h = (h, tt)
IsFilled-append (c ∷ q) b f h = (f.0, IsFilled-append q b f.1 h)

-- Taking a socket out of its thread sends nothing.
pub remove_and_free-stream :
    (sys : System) (g : EventWorld) (t : EventThread) (k : ℕ)
    → stream_of (remove_and_free sys g t k).0 k ≡ stream_of g k
unfolding remove_and_free remove_socket_obj
remove_and_free-stream sys g t k =
    let same : queue_of (close_handle g k) k ≡ queue_of g k = ground arith in
    elim (Bool-cases ((g.sockets k).s == invalid_socket)) [
      | inl closed ↦ rw closed refl
      | inr still ↦ rw still (ap (λ q. taken_bytes g.trace ++ queue_bytes q) same)
    ]

module _ (sys : System)
    (whole : (n : ℕ) (b : List ℕ)
      → (sys.send n b ≡ taken (length b)) ⊎ (sys.send n b ≡ unsent would_block))
    (room : (n : ℕ) → sys.memory n ≡ true) where
  -- Bytes came in and stand at the end of the queue.
  pub received_at_tail :
      (g : EventWorld) (k x : ℕ) (xs : List ℕ) (peer : ℕ)
      → sys.recv g.calls ≡ arrived (x ∷ xs) peer
      → IsFilled (queue_of g k)
      → (h : EventWorld) × (receive_pending_data sys g k ≡ some (h, got_data))
        × (h.is_tcp ≡ g.is_tcp)
        × (h.calls ≡ g.calls + 1)
        × IsFilled (queue_of h k)
        × (stream_of h k ≡ stream_of g k ++ x ∷ xs)
  unfolding receive_pending_data
  received_at_tail g k x xs peer e full =
      let b = filled_buffer g (x ∷ xs) peer in
      let queue = enqueue_buffer_obj (queue_of g k) b false in
      let g₁ =
        count_received (note_call g (EventCall.receives (g.sockets k).s)) (length (x ∷ xs)) in
      let h = set_queue g₁ k queue in
      let kept : queue_of h k ≡ queue_of g k ++ b ∷ [] =
        queue_of-set sys whole room g₁ k queue ∙ at_tail (queue_of g k) b in
      (
        h,
        rw (room g.calls, e) refl,
        refl,
        refl,
        subst IsFilled (sym kept) (
            IsFilled-append (queue_of g k) b full (
              omega
                (arith, length-append (x ∷ xs) (replicate (g.buffer_size - length (x ∷ xs)) 0)))),
        ap (λ q. taken_bytes g.trace ++ queue_bytes q) kept
            ∙ ap (◌++◌ (taken_bytes g.trace)) (queue_bytes-append (queue_of g k) b)
            ∙ ap (λ l. taken_bytes g.trace ++ (queue_bytes (queue_of g k) ++ l))
                (take-append (x ∷ xs) (replicate (g.buffer_size - length (x ∷ xs)) 0))
            ∙ sym (append_assoc (taken_bytes g.trace) (queue_bytes (queue_of g k)) (x ∷ xs)),
      )

  -- Whatever the code is, the stream stays.
  pub code_step :
      (h : EventWorld) (t : EventThread) (k : ℕ) (ret : Code)
      → (h₁ : EventWorld) × (t₁ : EventThread) × (stays : Bool) × (unless_broken sys t k
            (some (h, ret))
          ≡ some (h₁, t₁, stays))
        × (stream_of h₁ k ≡ stream_of h k)
  code_step h t k broken =
      let (h₁, t₁) = remove_and_free sys h t k in
      (h₁, t₁, false, refl, remove_and_free-stream sys h t k)
  code_step h t k nothing_more = (h, t, true, refl, refl)
  code_step h t k got_data = (h, t, true, refl, refl)
  code_step h t k blocked = (h, t, true, refl, refl)
