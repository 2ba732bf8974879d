-- ===== src/Iocp/Handler/Queueing.antt =====
-- What turning a receive into a queued send leaves alone, in HandleIo of chapter06/iocpserver.cpp.
use network_programming_for.Base.{ℕ, ◌≡◌, Bool-cases, inl, inr, refl, ltb, ◌∙◌}
use network_programming_for.Iocp.State.{Server, write}
use network_programming_for.Iocp.Pending.Frames.{SameGlobals, enqueue-SameGlobals}
use network_programming_for.Iocp.Pools.{free_buffer_obj}
use network_programming_for.Iocp.Handler.{handle_read, queue_echo}

pub queue_echo-SameGlobals : (g : Server) (k b n : ℕ) → SameGlobals g (queue_echo g k b n)
unfolding queue_echo
queue_echo-SameGlobals g k b n =
    let e = enqueue-SameGlobals _ b write in
    record {
      config = e.config;
      outstanding_sends = e.outstanding_sends;
      calls = e.calls;
      trace = e.trace;
    }

-- The globals do not hang on the counters of bytes, nor on the heap.
through :
    (g g₁ h : Server)
    → SameGlobals g₁ h
    → g₁.config ≡ g.config
    → g₁.outstanding_sends ≡ g.outstanding_sends
    → g₁.calls ≡ g.calls
    → g₁.trace ≡ g.trace
    → SameGlobals g h
through g g₁ h s a b c d = record {
  config = s.config ∙ a;
  outstanding_sends = s.outstanding_sends ∙ b;
  calls = s.calls ∙ c;
  trace = s.trace ∙ d;
}

pub handle_read-SameGlobals : (g : Server) (k b n : ℕ) → SameGlobals g (handle_read g k b n).0
unfolding handle_read free_buffer_obj
handle_read-SameGlobals g k b n = elim (Bool-cases (ltb 0 n)) [
  | inl e ↦ rw e (through g _ _ (queue_echo-SameGlobals _ k b n) refl refl refl refl)
  | inr e ↦ rw e (record { config = refl; outstanding_sends = refl; calls = refl; trace = refl })
]
