-- ===== src/Iocp/Pending/Frames.antt =====
-- What joining the queue of pending sends of chapter06/iocpserver.cpp leaves alone.
use network_programming_for.Base.{ℕ, ◌≡◌, ◌∙◌, arith, refl, null}
use network_programming_for.Iocp.State.{Operation, accept, read, write, Server, set_buffer}
use network_programming_for.Iocp.Pending.{count_pending, link_end, enqueue_pending_operation}

-- The parts of the state that belong to nothing on the heap.
pub record SameGlobals (g h : Server) : Type 0 where
  pub config : h.config ≡ g.config
  pub outstanding_sends : h.outstanding_sends ≡ g.outstanding_sends
  pub calls : h.calls ≡ g.calls
  pub trace : h.trace ≡ g.trace

count_pending-SameGlobals :
    (g : Server) (obj : ℕ) (op : Operation) → SameGlobals g (count_pending g obj op)
unfolding count_pending
count_pending-SameGlobals g obj accept = record {
  config = refl;
  outstanding_sends = refl;
  calls = refl;
  trace = refl;
}
count_pending-SameGlobals g obj read = record {
  config = refl;
  outstanding_sends = refl;
  calls = refl;
  trace = refl;
}
count_pending-SameGlobals g obj write = record {
  config = refl;
  outstanding_sends = refl;
  calls = refl;
  trace = refl;
}

link_end-SameGlobals : (g : Server) (obj : ℕ) → SameGlobals g (link_end g obj)
unfolding link_end
link_end-SameGlobals g obj = ground arith

pub enqueue-SameGlobals :
    (g : Server) (obj : ℕ) (op : Operation) → SameGlobals g (enqueue_pending_operation g obj op)
unfolding enqueue_pending_operation
enqueue-SameGlobals g obj op =
    let g₁ = count_pending g obj op in
    let g₂ = set_buffer g₁ obj (record (g₁.buffers obj) { next = null }) in
    let linked = link_end-SameGlobals g₂ obj in
    let counted = count_pending-SameGlobals g obj op in
    record {
      config = linked.config ∙ counted.config;
      outstanding_sends = linked.outstanding_sends ∙ counted.outstanding_sends;
      calls = linked.calls ∙ counted.calls;
      trace = linked.trace ∙ counted.trace;
    }
