-- ===== src/EventSelect/Handler/Close.antt =====
-- A close event that `HandleIo` of chapter05/WSAEventSelect/server/eventserver.cpp handles.
use network_programming_for.Base.{
  ℕ, suc, ◌+◌, ◌≡◌, Bool, true, List, [], ◌∷◌, ◌++◌, if◌then◌else◌, none, some, ◌⊎◌, length,
}
use network_programming_for.EventSelect.State.{
  EventBuffer, arrived, taken, unsent, System, EventWorld, put_socket,
}
use network_programming_for.EventSelect.Sending.{
  would_block, Code, broken, nothing_more, queue_of, is_idle, close_handle,
}
use network_programming_for.EventSelect.Sending.Conservation.{IsFilled}
use network_programming_for.EventSelect.Threads.{EventThread}
use network_programming_for.EventSelect.Handler.{receive_rest, handle_events}
use network_programming_for.EventSelect.Handler.Echo.{stream_of}

-- The receives from number `n` on bring these pieces, each of at least one byte, and then the end of the
-- stream.
abbrev pub Delivers : System → (n : ℕ) → List (ℕ × List ℕ) → Type 0
Delivers sys n [] = sys.recv n ≡ arrived [] 0
Delivers sys n (c ∷ cs) = (sys.recv n ≡ arrived (c.0 ∷ c.1) 0) × Delivers sys (n + 1) cs

abbrev pub bytes_of : List (ℕ × List ℕ) → List ℕ
bytes_of [] = []
bytes_of (c ∷ cs) = (c.0 ∷ c.1) ++ bytes_of cs

module _ (sys : System)
    (whole : (n : ℕ) (b : List ℕ)
      → (sys.send n b ≡ taken (length b)) ⊎ (sys.send n b ≡ unsent would_block))
    (room : (n : ℕ) → sys.memory n ≡ true) where
  -- What the loop over the receives leaves.
  abbrev ReceivedAll : (fuel : ℕ) → EventWorld → (sock : ℕ) → List ℕ → Type 0
  ReceivedAll fuel g k bytes =
      (h : EventWorld) × (ret : Code) × (receive_rest sys fuel g k ≡ some (h, ret))
      × (h.is_tcp ≡ true)
      × IsFilled (queue_of h k)
      × (stream_of h k ≡ stream_of g k ++ bytes)

  -- The world after the end of the stream, and the code, for a queue like this.
  abbrev ended : EventWorld → (sock : ℕ) → List EventBuffer → EventWorld × Code
  ended g k q =
      let h = put_socket g k (record (g.sockets k) { pending = q; closing = true }) in
      if is_idle q then (close_handle h k, broken) else (h, nothing_more)

  -- What stays of the stream when the handler goes on to send.
  abbrev pub Ends : (fuel : ℕ) → EventWorld → EventThread → (sock : ℕ) → List ℕ → Type 0
  Ends fuel g t k bytes =
      (h : EventWorld) × (t₁ : EventThread) × (stays : Bool) × (handle_events sys (suc (suc fuel)) g
          t k (some (none, none, some 0))
        ≡ some (h, t₁, stays))
      × (stream_of h k ≡ bytes)
