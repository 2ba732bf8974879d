-- ===== src/EventSelect/Handler.antt =====
-- `ReceivePendingData`, `FreeSocketObj` and `HandleIo` of
-- chapter05/WSAEventSelect/server/eventserver.cpp. `fuel` bounds the loops over a buffer and over the
-- receives of a socket that is closing; none: it ran out, or the process ended for want of memory.
pub mod Echo
pub mod Close
use network_programming_for.Base.{
  ℕ, zero, suc, ◌-◌, Bool, true, false, List, [], ◌∷◌, ◌++◌, ◌==◌, if◌then◌else◌, Option, none,
  some, length, replicate, exchange_add,
}
use network_programming_for.Iocp.State.{invalid_socket}
use network_programming_for.EventSelect.State.{
  EventBuffer, arrived, refused, System, EventCall, EventWorld, put_socket, note_call,
}
use network_programming_for.EventSelect.Sending.{
  would_block, Code, broken, nothing_more, got_data, blocked, enqueue_buffer_obj, set_queue,
  queue_of, is_idle, close_handle, send_pending_data,
}
use network_programming_for.EventSelect.Threads.{EventThread, remove_socket_obj}

-- The buffer after a receive of these bytes into a new one.
abbrev pub filled_buffer : EventWorld → List ℕ → (peer : ℕ) → EventBuffer
filled_buffer g bytes peer = record {
  memory = bytes ++ replicate (g.buffer_size - length bytes) 0;
  buflen = length bytes;
  addr = if g.is_tcp then 0 else peer;
}

abbrev pub count_received : EventWorld → ℕ → EventWorld
count_received g n = record g {
  bytes_read = exchange_add g.bytes_read n;
  bytes_read_last = exchange_add g.bytes_read_last n;
}

-- A receive of no bytes: the end of a stream, or an empty datagram, which is queued.
unfoldable pub receive_nothing : EventWorld → (sock peer : ℕ) → EventWorld × Code
unfolding enqueue_buffer_obj
receive_nothing g k peer =
    let queue = queue_of g k in
    let after =
      if g.is_tcp then queue else enqueue_buffer_obj queue (filled_buffer g [] peer) false in
    let g₁ = put_socket g k (record (g.sockets k) { pending = after; closing = true }) in
    if is_idle after then (close_handle g₁ k, broken) else (g₁, nothing_more)

module _ (sys : System) where
  unfoldable pub receive_pending_data : EventWorld → (sock : ℕ) → Option (EventWorld × Code)
  unfolding receive_nothing
  receive_pending_data g k =
      let g₁ = note_call g (EventCall.receives (g.sockets k).s) in
      if sys.memory g.calls
      then elim (sys.recv g.calls) [
        | refused error ↦
            some (if error == would_block then (g₁, blocked) else (close_handle g₁ k, broken))
        | arrived [] peer ↦ some (receive_nothing g₁ k peer)
        | arrived (x ∷ xs) peer ↦ some (
          set_queue (count_received g₁ (length (x ∷ xs))) k
              (enqueue_buffer_obj (queue_of g k) (filled_buffer g (x ∷ xs) peer) false),
          got_data,
        )
      ]
      else none

  -- `RemoveSocketObj` and `FreeSocketObj`, which closes the handle unless that was done.
  unfoldable pub remove_and_free : EventWorld → EventThread → (sock : ℕ) → EventWorld × EventThread
  unfolding remove_socket_obj
  remove_and_free g t k =
      let (g₁, t₁) = remove_socket_obj g t k in
      (if (g₁.sockets k).s == invalid_socket then g₁ else close_handle g₁ k, t₁)

  -- What a part of the handler leaves; the flag is false where the handler returned `SOCKET_ERROR`.
  abbrev pub Step : Type 0
  Step = Option (EventWorld × EventThread × Bool)

  abbrev pub carry_on : Step → (EventWorld → EventThread → Step) → Step
  carry_on none f = none
  carry_on (some (g, t, true)) f = f g t
  carry_on (some (g, t, false)) f = some (g, t, false)

  -- -1 removes the socket.
  abbrev pub unless_broken : EventThread → (sock : ℕ) → Option (EventWorld × Code) → Step
  unless_broken t k none = none
  unless_broken t k (some (g, broken)) =
      let (g₁, t₁) = remove_and_free g t k in some (g₁, t₁, false)
  unless_broken t k (some (g, nothing_more)) = some (g, t, true)
  unless_broken t k (some (g, got_data)) = some (g, t, true)
  unless_broken t k (some (g, blocked)) = some (g, t, true)

  abbrev pub give_up : EventWorld → EventThread → (sock : ℕ) → Step
  give_up g t k = let (g₁, t₁) = remove_and_free g t k in some (g₁, t₁, false)

  -- The error code of an event that was signaled, if it was.
  unfoldable pub read_event : (fuel : ℕ) → EventWorld → EventThread → (sock : ℕ) → Option ℕ → Step
  unfolding remove_and_free
  read_event fuel g t k none = some (g, t, true)
  read_event fuel g t k (some error) =
      if error == 0
      then carry_on (unless_broken t k (receive_pending_data g k))
          (λ g₁ t₁. unless_broken t₁ k (send_pending_data sys fuel g₁ k))
      else give_up g t k

  unfoldable pub write_event : (fuel : ℕ) → EventWorld → EventThread → (sock : ℕ) → Option ℕ → Step
  write_event fuel g t k none = some (g, t, true)
  write_event fuel g t k (some error) =
      if error == 0 then unless_broken t k (send_pending_data sys fuel g k) else some (g, t, false)

  -- The `while (1)` of a socket that is closing: only a receive that returns 0 or -1 ends it.
  unfoldable pub receive_rest : (fuel : ℕ) → EventWorld → (sock : ℕ) → Option (EventWorld × Code)
  receive_rest zero g k = none
  receive_rest (suc fuel) g k = elim (receive_pending_data g k) [
    | none ↦ none
    | some (g₁, broken) ↦ some (g₁, broken)
    | some (g₁, nothing_more) ↦ some (g₁, nothing_more)
    | some (g₁, got_data) ↦ receive_rest fuel g₁ k
    | some (g₁, blocked) ↦ receive_rest fuel g₁ k
  ]

  unfoldable pub close_event : (fuel : ℕ) → EventWorld → EventThread → (sock : ℕ) → Option ℕ → Step
  unfolding receive_rest
  close_event fuel g t k none = some (g, t, true)
  close_event fuel g t k (some error) =
      if error == 0
      then carry_on (unless_broken t k (receive_rest fuel g k))
          (λ g₁ t₁. unless_broken t₁ k (send_pending_data sys fuel g₁ k))
      else give_up g t k

  -- The events that `WSAEnumNetworkEvents` reports, or that it failed.
  unfoldable pub handle_events :
      (fuel : ℕ)
      → EventWorld
      → EventThread
      → (sock : ℕ) → Option (Option ℕ × Option ℕ × Option ℕ)
      → Step
  unfolding read_event write_event close_event
  handle_events fuel g t k none = some (g, t, false)
  handle_events fuel g t k (some (reads, writes, closes)) =
      carry_on (carry_on (read_event fuel g t k reads) (λ g₁ t₁. write_event fuel g₁ t₁ k writes))
        (λ g₂ t₂. close_event fuel g₂ t₂ k closes)
