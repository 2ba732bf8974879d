-- ===== src/EventSelect/Sending/Steps.antt =====
-- The rounds of the loop over one buffer in `SendPendingData` of
-- chapter05/WSAEventSelect/server/eventserver.cpp.
use network_programming_for.Base.{
  ℕ, suc, ◌+◌, ◌-◌, ◌≡◌, refl, true, false, List, ◌==◌, some, take, drop, arith,
}
use network_programming_for.EventSelect.State.{
  EventBuffer, taken, System, EventCall, EventWorld, note_call,
}
use network_programming_for.EventSelect.Sending.{all_sent, send_buffer, count_sent}

-- What the round offers to the system.
abbrev pub offer : EventBuffer → (nleft idx : ℕ) → List ℕ
offer b nleft idx = take nleft (drop idx b.memory)

-- The world after a send of which this much was taken.
abbrev pub sent_world : EventWorld → (sock : ℕ) → List ℕ → (rc : ℕ) → EventWorld
sent_world g k piece rc = count_sent (note_call g (EventCall.sends (g.sockets k).s piece 0 rc)) rc

module _ (sys : System) (fuel : ℕ) (g : EventWorld) (k : ℕ) (b : EventBuffer) (nleft idx : ℕ) where
  pub round_done : nleft ≡ 0 → send_buffer sys (suc fuel) g k b nleft idx ≡ some (g, all_sent)
  unfolding send_buffer
  round_done e = let t : (nleft == 0) ≡ true = ground (arith, e) in rw (t, send_buffer) refl

  pub round_taken :
      (rc : ℕ)
      → (nleft == 0) ≡ false
      → sys.send g.calls (offer b nleft idx) ≡ taken rc
      → send_buffer sys (suc fuel) g k b nleft idx
        ≡ send_buffer sys fuel (sent_world g k (offer b nleft idx) rc) k b (nleft - rc) (idx + 0)
  unfolding send_buffer
  round_taken rc t e = rw (t, send_buffer, e) refl
