-- ===== src/EventSelect/Sending.antt =====
-- `EnqueueBufferObj`, `DequeueBufferObj`, `ReceivePendingData` and `SendPendingData` of
-- chapter05/WSAEventSelect/server/eventserver.cpp.
pub mod Steps
pub mod Handles
pub mod Conservation
pub mod Partial
use network_programming_for.Base.{
  ℕ, zero, suc, ◌+◌, ◌-◌, Bool, true, false, List, [], ◌∷◌, ◌++◌, ◌==◌, ◌&&◌, if◌then◌else◌, Option,
  none, some, take, drop, length, exchange_add,
}
use network_programming_for.EventSelect.State.{
  EventBuffer, Received, arrived, refused, Sent, taken, unsent, System, EventCall, EventWorld,
  put_socket, note_call,
}
use network_programming_for.Iocp.State.{invalid_socket}

-- `WSAEWOULDBLOCK`
abbrev pub would_block : ℕ
would_block = 10035

-- What the two functions return: -1, 0, 1, or `WSAEWOULDBLOCK`.
pub data Code : Type 0 where
  broken nothing_more got_data blocked : Code

unfoldable pub enqueue_buffer_obj :
    List EventBuffer → EventBuffer → (at_head : Bool) → List EventBuffer
enqueue_buffer_obj [] obj at_head = obj ∷ []
enqueue_buffer_obj (b ∷ queue) obj at_head =
    if at_head then obj ∷ b ∷ queue else b ∷ (queue ++ obj ∷ [])

abbrev pub set_queue : EventWorld → ℕ → List EventBuffer → EventWorld
set_queue g k q = put_socket g k (record (g.sockets k) { pending = q })

abbrev pub queue_of : EventWorld → ℕ → List EventBuffer
queue_of g k = (g.sockets k).pending

abbrev pub is_idle : List EventBuffer → Bool
is_idle [] = true
is_idle (_ ∷ _) = false

-- `closesocket`, and the handle is forgotten.
abbrev pub close_handle : EventWorld → ℕ → EventWorld
close_handle g k = record (put_socket g k (record (g.sockets k) { s = invalid_socket })) {
  trace = EventCall.closes (g.sockets k).s ∷ g.trace;
}

abbrev pub count_sent : EventWorld → ℕ → EventWorld
count_sent g n = record g {
  bytes_sent = exchange_add g.bytes_sent n;
  bytes_sent_last = exchange_add g.bytes_sent_last n;
}

-- A socket that is closing and has nothing left to send is closed.
unfoldable pub close_if_idle : EventWorld → (sock : ℕ) → Code → EventWorld × Code
close_if_idle g k ret =
    if is_idle (queue_of g k) && (g.sockets k).closing then (close_handle g k, broken) else (g, ret)

-- How the loop over one buffer ends: all of it was sent, the rest goes back, or the socket failed.
pub data SendEnd : Type 0 where
  all_sent : SendEnd
  left_over : EventBuffer → SendEnd
  failed : SendEnd

module _ (sys : System) where
  -- The `while (nleft)` for a stream. `idx` is moved on by 0.
  unfoldable pub send_buffer :
      (fuel : ℕ)
      → EventWorld
      → (sock : ℕ) → EventBuffer
      → (nleft idx : ℕ) → Option (EventWorld × SendEnd)
  send_buffer zero g k b nleft idx = none
  send_buffer (suc fuel) g k b nleft idx =
      let piece = take nleft (drop idx b.memory) in
      elim (nleft == 0) [
        | true ↦ some (g, all_sent)
        | false ↦ elim (sys.send g.calls piece) [
          | taken rc ↦
              send_buffer fuel
                (count_sent (note_call g (EventCall.sends (g.sockets k).s piece 0 rc)) rc) k b
                (nleft - rc) (idx + 0)
          | unsent error ↦
              let g₁ = note_call g (EventCall.sends (g.sockets k).s piece 0 0) in
              if error == would_block
              then (if sys.memory g₁.calls
                  then some (g₁, left_over (record { memory = piece; buflen = nleft; addr = 0 }))
                  else none)
              else some (g₁, failed)
        ]
      ]

  -- A datagram goes as a whole, or back to the head of the queue.
  unfoldable pub send_datagram : EventWorld → (sock : ℕ) → EventBuffer → EventWorld × SendEnd
  send_datagram g k b =
      let bytes = take b.buflen b.memory in
      elim (sys.send g.calls bytes) [
        | taken rc ↦ (note_call g (EventCall.sends (g.sockets k).s bytes b.addr rc), all_sent)
        | unsent error ↦ (
          note_call g (EventCall.sends (g.sockets k).s bytes b.addr 0),
          if error == would_block then left_over b else failed,
        )
      ]

  unfoldable pub send_one :
      (fuel : ℕ) → EventWorld → (sock : ℕ) → EventBuffer → Option (EventWorld × SendEnd)
  unfolding send_datagram
  send_one fuel g k b =
      if g.is_tcp then send_buffer fuel g k b b.buflen 0 else some (send_datagram g k b)

  -- The loop over the queue.
  unfoldable pub send_queue :
      (fuel : ℕ) → EventWorld → (sock : ℕ) → List EventBuffer → Option (EventWorld × Code)
  unfolding enqueue_buffer_obj
  send_queue fuel g k [] = some (set_queue g k [], nothing_more)
  send_queue fuel g k (b ∷ queue) = elim (send_one fuel g k b) [
    | none ↦ none
    | some (g₁, all_sent) ↦ send_queue fuel g₁ k queue
    | some (g₁, left_over rest) ↦
        some (set_queue g₁ k (enqueue_buffer_obj queue rest true), blocked)
    | some (g₁, failed) ↦ some (set_queue g₁ k queue, broken)
  ]

  unfoldable pub send_pending_data :
      (fuel : ℕ) → EventWorld → (sock : ℕ) → Option (EventWorld × Code)
  unfolding close_if_idle
  send_pending_data fuel g k = elim (send_queue fuel g k (queue_of g k)) [
    | none ↦ none
    | some (g₁, ret) ↦ some (close_if_idle g₁ k ret)
  ]
