-- ===== src/EventSelect/Sending/Partial.antt =====
-- `SendPendingData` of chapter05/WSAEventSelect/server/eventserver.cpp where a send takes a part of its
-- bytes: the loop over the buffer ends, but starts over at the first byte.
use network_programming_for.Base.{
  ℕ, zero, suc, ◌+◌, ◌-◌, ◌<◌, ◌≡◌, ◌∙◌, ap, refl, true, false, List, ◌++◌, ◌==◌, some, inl, inr,
  take, arith, Bool-cases, append_assoc, take_all, length-take,
}
use network_programming_for.EventSelect.State.{
  EventBuffer, Sent, taken, unsent, System, EventCall, EventWorld, note_call,
}
use network_programming_for.EventSelect.Sending.{
  would_block, SendEnd, all_sent, left_over, failed, send_buffer,
}
use network_programming_for.EventSelect.Sending.Steps.{offer, sent_world, round_done, round_taken}
use network_programming_for.EventSelect.Sending.Conservation.{taken_bytes, buffer_bytes}

-- If the first send of a buffer takes some of its bytes but not all, and the second one all that
-- it is offered, then with fuel of at least 3 the loop of SendPendingData reports the buffer as
-- sent, and what was sent is the part that was taken followed by the first bytes of the buffer
-- again instead of the rest.
pub partial_send-repeats :
    (sys : System) (fuel : ℕ) (g : EventWorld) (k m : ℕ) (b : EventBuffer)
    → 0 < m
    → m < b.buflen
    → sys.send g.calls (buffer_bytes b) ≡ taken m
    → sys.send (g.calls + 1) (take (b.buflen - m) b.memory) ≡ taken (b.buflen - m)
    → (h : EventWorld) × (send_buffer sys (suc (suc (suc fuel))) g k b b.buflen 0
        ≡ some (h, all_sent))
      × (taken_bytes h.trace
          ≡ taken_bytes g.trace ++ (take m (buffer_bytes b) ++ take (b.buflen - m) b.memory))
partial_send-repeats sys fuel g k m b some_taken some_left first second =
    let n = b.buflen in
    let rest = take (n - m) b.memory in
    let g₁ = sent_world g k (buffer_bytes b) m in
    let g₂ = sent_world g₁ k rest (n - m) in
    let whole : take (n - m) rest ≡ rest =
      take_all (n - m) rest (omega (arith, length-take (n - m) b.memory)) in
    (
      g₂,
      round_taken sys (suc (suc fuel)) g k b n 0 m (ground (arith, some_left)) first
          ∙ round_taken sys (suc fuel) g₁ k b (n - m) 0 (n - m) (ground (arith, some_left)) second
          ∙ round_done sys fuel g₂ k b (n - m - (n - m)) 0 (omega arith),
      ap (◌++◌ (taken_bytes g.trace ++ take m (buffer_bytes b))) whole
          ∙ append_assoc (taken_bytes g.trace) (take m (buffer_bytes b)) rest,
    )

module _ (sys : System) (moves : (n : ℕ) (b : List ℕ) (rc : ℕ) → sys.send n b ≡ taken rc → 0 < rc)
    (room : (n : ℕ) → sys.memory n ≡ true) where
  -- The round goes on, or the loop ends.
  round_ends :
      (fuel : ℕ) (g : EventWorld) (k : ℕ) (b : EventBuffer) (nleft idx : ℕ) (r : Sent)
      → (nleft == 0) ≡ false
      → sys.send g.calls (offer b nleft idx) ≡ r
      → ((rc : ℕ)
          → r ≡ taken rc
          → (h : EventWorld) × (e : SendEnd) × (send_buffer sys fuel
                (sent_world g k (offer b nleft idx) rc)
                k
                b
                (nleft - rc)
                (idx + 0)
              ≡ some (h, e)))
      → (h : EventWorld) × (e : SendEnd) × (send_buffer sys (suc fuel) g k b nleft idx
          ≡ some (h, e))
  unfolding send_buffer
  round_ends fuel g k b nleft idx (taken rc) t e more =
      let (h, end, run) = more rc refl in
      (h, end, round_taken sys fuel g k b nleft idx rc t e ∙ run)
  round_ends fuel g k b nleft idx (unsent error) t e more =
      let g₁ = note_call g (EventCall.sends (g.sockets k).s (offer b nleft idx) 0 0) in
      elim (Bool-cases (error == would_block)) [
        | inl again ↦ (
          g₁,
          left_over (record { memory = offer b nleft idx; buflen = nleft; addr = 0 }),
          rw (t, send_buffer, e, again, room (g.calls + 1)) refl,
        )
        | inr bad ↦ (g₁, failed, rw (t, send_buffer, e, bad) refl)
      ]

  -- If every send that succeeds takes at least one byte and there is memory, the loop of
  -- SendPendingData over one buffer ends with more fuel than bytes that are left.
  pub send_buffer-ends :
      (fuel : ℕ) (g : EventWorld) (k : ℕ) (b : EventBuffer) (nleft idx : ℕ)
      → nleft < fuel
      → (h : EventWorld) × (e : SendEnd) × (send_buffer sys fuel g k b nleft idx ≡ some (h, e))
  send_buffer-ends zero g k b nleft idx h = absurd (omega arith)
  send_buffer-ends (suc fuel) g k b nleft idx h = elim (Bool-cases (nleft == 0)) [
    | inl none_left ↦ (g, all_sent, round_done sys fuel g k b nleft idx (ground (arith, none_left)))
    | inr some_left ↦
        round_ends fuel g k b nleft idx (sys.send g.calls (offer b nleft idx)) some_left refl
          (λ rc e.
            send_buffer-ends fuel (sent_world g k (offer b nleft idx) rc) k b (nleft - rc) (idx + 0)
              (let forward = moves g.calls (offer b nleft idx) rc e in
                ground (arith, forward, some_left, h)))
  ]
