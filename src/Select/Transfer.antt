-- ===== src/Select/Transfer.antt =====
-- `ReceivePendingData` and `SendPendingData` of chapter05/nonblocking/server/nbserver.cpp. `fuel` bounds
-- the loop over one buffer. The flag of a result says that the function returned -1.
pub mod Streams
pub mod Sending
pub mod Receiving
use network_programming_for.Base.{
  ℕ, zero, suc, ◌+◌, ◌-◌, Bool, true, false, List, [], ◌∷◌, ◌++◌, ◌==◌, ◌&&◌, if◌then◌else◌, take,
  drop, length, u32,
}
use network_programming_for.Select.State.{
  NbBuffer, NbSocket, NbSystem, arrived, refused, taken, unsent, NbCall, NbWorld, put_socket,
  note_call, Flow, going, exited, stuck, ◌>>=◌,
}
use network_programming_for.Select.Objects.{get_buffer_obj, enqueue_buffer_obj}

-- `WSAEWOULDBLOCK`
abbrev pub would_block : ℕ
would_block = 10035

abbrev pub queue_of : NbWorld → ℕ → List NbBuffer
queue_of g k = (g.sockets k).pending

abbrev pub set_queue : NbWorld → ℕ → List NbBuffer → NbWorld
set_queue g k q = put_socket g k (record (g.sockets k) { pending = q })

abbrev pub is_idle : List NbBuffer → Bool
is_idle [] = true
is_idle (_ ∷ _) = false

-- `closesocket`
abbrev pub close_socket : NbWorld → ℕ → NbWorld
close_socket g k = record g { trace = NbCall.closes k (g.sockets k).s ∷ g.trace }

abbrev pub count_sent : NbWorld → ℕ → NbWorld
count_sent g n = record g {
  bytes_sent = u32 (g.bytes_sent + n);
  bytes_sent_last = u32 (g.bytes_sent_last + n);
}

abbrev pub count_received : NbWorld → ℕ → NbWorld
count_received g n = record g {
  bytes_read = u32 (g.bytes_read + n);
  bytes_read_last = u32 (g.bytes_read_last + n);
}

-- The buffer after these bytes were received into it; only `recvfrom` fills in the address.
abbrev pub filled_buffer : (is_tcp : Bool) → NbBuffer → List ℕ → (peer : ℕ) → NbBuffer
filled_buffer is_tcp b bytes peer = record {
  memory = bytes ++ drop (length bytes) b.memory;
  buflen = length bytes;
  addr = if is_tcp then b.addr else peer;
}

-- A receive of no bytes: the end of a stream, or an empty datagram, which is queued. Either way the
-- socket is closing.
unfoldable pub receive_nothing : NbWorld → (sock : ℕ) → NbBuffer → (peer : ℕ) → NbWorld × Bool
unfolding enqueue_buffer_obj
receive_nothing g k b peer =
    let queue = queue_of g k in
    let after =
      if g.is_tcp then queue else enqueue_buffer_obj queue (filled_buffer false b [] peer) false in
    let g₁ = put_socket g k (record (g.sockets k) { pending = after; closing = true }) in
    if is_idle after then (close_socket g₁ k, true) else (g₁, false)

unfoldable pub receive_into : NbSystem → NbWorld → (sock : ℕ) → NbBuffer → NbWorld × Bool
unfolding receive_nothing
receive_into sys g k b = elim (sys.recv g.calls) [
  | refused error ↦
      let g₁ = note_call g (NbCall.receives k []) in
      if error == would_block then (g₁, false) else (close_socket g₁ k, true)
  | arrived [] peer ↦ receive_nothing (note_call g (NbCall.receives k [])) k b peer
  | arrived (x ∷ xs) peer ↦ (
    let g₁ = note_call g (NbCall.receives k (x ∷ xs)) in
        set_queue (count_received g₁ (length (x ∷ xs))) k
          (enqueue_buffer_obj (queue_of g k) (filled_buffer g.is_tcp b (x ∷ xs) peer) false),
    false,
  )
]

unfoldable pub receive_pending_data : NbSystem → NbWorld → (sock : ℕ) → Flow (NbWorld × Bool)
receive_pending_data sys g k =
    get_buffer_obj sys g g.buffer_size >>= λ r. going (receive_into sys r.0 k r.1)

-- How the loop over one buffer ends: all of it was sent, the rest goes back, or the socket failed.
pub data SendEnd : Type 0 where
  all_sent : SendEnd
  left_over : NbBuffer → SendEnd
  failed : SendEnd

-- The unsent part as a buffer of its own. What `&buf[idx]` offers is copied to its start.
abbrev pub copied_buffer : NbBuffer → List ℕ → NbBuffer
copied_buffer b piece = record b { memory = piece ++ drop (length piece) b.memory }

-- A socket that is closing and has nothing left to send is closed.
unfoldable pub close_if_idle : NbWorld → (sock : ℕ) → (ret : Bool) → NbWorld × Bool
close_if_idle g k ret =
    if is_idle (queue_of g k) && (g.sockets k).closing then (close_socket g k, true) else (g, ret)

module _ (sys : NbSystem) where
  -- The `while (nleft)` for a stream. `idx` is moved on by 0.
  unfoldable pub send_buffer :
      (fuel : ℕ) → NbWorld → (sock : ℕ) → NbBuffer → (nleft idx : ℕ) → Flow (NbWorld × SendEnd)
  send_buffer zero g k b nleft idx = stuck
  send_buffer (suc fuel) g k b nleft idx =
      let piece = take nleft (drop idx b.memory) in
      elim (nleft == 0) [
        | true ↦ going (g, all_sent)
        | false ↦ elim (sys.send g.calls piece) [
          | taken rc ↦
              send_buffer fuel (count_sent (note_call g (NbCall.sends k piece 0 rc)) rc) k b
                (nleft - rc) (idx + 0)
          | unsent error ↦
              let g₁ = note_call g (NbCall.sends k piece 0 0) in
              if error == would_block
              then (get_buffer_obj sys g₁ nleft >>= λ r.
                  going (r.0, left_over (copied_buffer r.1 piece)))
              else going (g₁, failed)
        ]
      ]

  -- A datagram goes as a whole, or back to the head of the queue. It is not counted.
  unfoldable pub send_datagram : NbWorld → (sock : ℕ) → NbBuffer → NbWorld × SendEnd
  send_datagram g k b =
      let bytes = take b.buflen b.memory in
      elim (sys.send g.calls bytes) [
        | taken rc ↦ (note_call g (NbCall.sends k bytes b.addr rc), all_sent)
        | unsent error ↦ (
          note_call g (NbCall.sends k bytes b.addr 0),
          if error == would_block then left_over b else failed,
        )
      ]

  unfoldable pub send_one : (fuel : ℕ) → NbWorld → (sock : ℕ) → NbBuffer → Flow (NbWorld × SendEnd)
  unfolding send_datagram
  send_one fuel g k b =
      if g.is_tcp then send_buffer fuel g k b b.buflen 0 else going (send_datagram g k b)

  -- The loop over the queue, which DequeueBufferObj takes apart from its head.
  unfoldable pub send_queue :
      (fuel : ℕ) → NbWorld → (sock : ℕ) → List NbBuffer → Flow (NbWorld × Bool)
  unfolding enqueue_buffer_obj
  send_queue fuel g k [] = going (set_queue g k [], false)
  send_queue fuel g k (b ∷ queue) = elim (send_one fuel g k b) [
    | exited ↦ exited
    | stuck ↦ stuck
    | going (g₁, all_sent) ↦ send_queue fuel g₁ k queue
    | going (g₁, left_over rest) ↦
        going (set_queue g₁ k (enqueue_buffer_obj queue rest true), false)
    | going (g₁, failed) ↦ going (set_queue g₁ k queue, true)
  ]

  unfoldable pub send_pending_data : (fuel : ℕ) → NbWorld → (sock : ℕ) → Flow (NbWorld × Bool)
  unfolding close_if_idle
  send_pending_data fuel g k =
      send_queue fuel g k (queue_of g k) >>= λ r. going (close_if_idle r.0 k r.1)
