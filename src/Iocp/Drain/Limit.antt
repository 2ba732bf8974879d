-- ===== src/Iocp/Drain/Limit.antt =====
-- The limit on outstanding sends in `ProcessPendingOperations` of chapter06/iocpserver.cpp.
use network_programming_for.Base.{
  ◌<◌, ◌≤◌, ◌+◌, ◌^◌, u32, ℕ, zero, suc, ◌≡◌, false, arith, signed_ltb,
}
use network_programming_for.Iocp.State.{Server, Answer}
use network_programming_for.Iocp.Pending.{unlink_head, uncount_pending, dequeue_pending_operation}
use network_programming_for.Iocp.Pools.{free_buffer_obj}
use network_programming_for.Iocp.Post.{post_send}
use network_programming_for.Iocp.Drain.{
  Round, again, leave, drain_round, process_pending_operations,
}

-- No more sends are outstanding than the limit allows.
abbrev pub IsBounded : Server → Type 0
IsBounded g = signed_ltb g.max_sends g.outstanding_sends ≡ false

-- The state that a round ends in.
abbrev pub state_of : Round → Server
state_of (again h) = h
state_of (leave h) = h

-- No more than the limit, and `m` steps at least above the smallest `LONG`.
abbrev pub IsWithin : ℕ → Server → Type 0
IsWithin m g =
    IsBounded g × (g.outstanding_sends < 2 ^ 32) × (m ≤ u32 (g.outstanding_sends + 2 ^ 31))

module _ (api : ℕ → Answer) (m : ℕ) where
  round-IsWithin : (g : Server) → IsWithin m g → IsWithin m (state_of (drain_round api g))
  unfolding drain_round post_send uncount_pending unlink_head dequeue_pending_operation
      free_buffer_obj
  round-IsWithin g b = ground arith

  resume-IsWithin :
      (fuel : ℕ) (r : Round)
      → ((g : Server) → IsWithin m g → IsWithin m (process_pending_operations api fuel g))
      → IsWithin m (state_of r)
      → IsWithin m (elim r [ again h ↦ process_pending_operations api fuel h | leave h ↦ h ])
  resume-IsWithin fuel (again h) ih b = ih h b
  resume-IsWithin fuel (leave h) ih b = b

  pub process-IsWithin :
      (fuel : ℕ) (g : Server) → IsWithin m g → IsWithin m (process_pending_operations api fuel g)
  unfolding process_pending_operations
  process-IsWithin zero g b = b
  process-IsWithin (suc fuel) g b =
      resume-IsWithin fuel (drain_round api g) (process-IsWithin fuel) (round-IsWithin g b)
