-- ===== src/Iocp/Drain.antt =====
-- `ProcessPendingOperations` of chapter06/iocpserver.cpp: queued sends are posted as long as fewer
-- than `gMaxSends` are outstanding.
pub mod Order
pub mod Limit
use network_programming_for.Base.{ℕ, zero, suc, ◌==◌, if◌then◌else◌, null, signed_ltb}
use network_programming_for.Iocp.State.{Operation, Server, Answer}
use network_programming_for.Iocp.Pending.{dequeue_pending_operation}
use network_programming_for.Iocp.Pools.{free_buffer_obj}
use network_programming_for.Iocp.Post.{post_send}

-- Whether the loop goes on after a round.
pub data Round : Type 0 where
  again : Server → Round
  leave : Server → Round

module _ (api : ℕ → Answer) where
  pub post_pending : Server → ℕ → Round
  post_pending g obj =
      if obj == null
      then leave g
      else (let (g₁, posted) = post_send api g (g.buffers obj).sock obj in
          if posted then again g₁ else leave (free_buffer_obj g₁ obj))

  unfoldable pub drain_round : Server → Round
  unfolding post_pending
  drain_round g =
      if signed_ltb g.outstanding_sends g.max_sends
      then (let (obj, g₁) = dequeue_pending_operation g Operation.write in post_pending g₁ obj)
      else leave g

  unfoldable pub process_pending_operations : (fuel : ℕ) → Server → Server
  process_pending_operations zero g = g
  process_pending_operations (suc fuel) g = elim (drain_round g) [
    | again g₁ ↦ process_pending_operations fuel g₁
    | leave g₁ ↦ g₁
  ]
