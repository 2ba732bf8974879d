-- ===== src/Iocp/Drain/Order.antt =====
-- What `ProcessPendingOperations` of chapter06/iocpserver.cpp sends, in which order, and when it
-- stops.
use network_programming_for.Base.{
  ℕ, zero, suc, ◌+◌, ◌<◌, ◌≡◌, ◌≢◌, refl, ap, ◌∙◌, NotIn-front, subst, true, false, List, [], ◌∷◌,
  ◌++◌, arith, NotIn, Bool-cases, ◌⊎◌, inl, inr, signed_ltb, length,
}
use network_programming_for.Iocp.State.{write, Server, Call, Answer, is_posted, payload}
use network_programming_for.Iocp.Pending.{unlink_head, uncount_pending}
use network_programming_for.Iocp.Pending.Fifo.{
  IsQueue, IsQueue-agree, dequeue-nil, dequeue-cons, dequeue-IsQueue,
}
use network_programming_for.Iocp.Pools.{free_buffer_obj}
use network_programming_for.Iocp.Post.{post_send}
use network_programming_for.Iocp.Drain.{again, leave, drain_round, process_pending_operations}

-- The send of a queued buffer, on the socket that it belongs to.
abbrev pub send_of : Server → ℕ → Call
send_of g x = Call.wsa_send (g.sockets (g.buffers x).sock).s (payload (g.buffers x))

-- The trace with the sends of these buffers on top, the last one first.
abbrev pub sends : Server → List ℕ → List Call → List Call
sends g [] t = t
sends g (x ∷ xs) t = sends g xs (send_of g x ∷ t)

-- The handles of the sockets, the limit, and all buffers but one are as before.
record Keeps (x : ℕ) (g h : Server) : Type 0 where
  buffers : (q : ℕ) → x ≢ q → h.buffers q ≡ g.buffers q
  sockets : (k : ℕ) → (h.sockets k).s ≡ (g.sockets k).s
  config : h.config ≡ g.config

sends-Keeps :
    (x : ℕ) (g h : Server) (xs : List ℕ) (t : List Call)
    → Keeps x g h
    → NotIn x xs
    → sends h xs t ≡ sends g xs t
sends-Keeps x g h [] t k out = refl
sends-Keeps x g h (y ∷ ys) t k out =
    rw (k.buffers y out.0, k.sockets (g.buffers y).sock) (sends-Keeps x g h ys _ k out.1)

abbrev pub without : Server → ℕ → Server
without g x = uncount_pending (unlink_head g x) x write

without-Keeps : (g : Server) (x : ℕ) → Keeps x g (without g x)
unfolding uncount_pending unlink_head
without-Keeps g x = record { buffers = λ q n. refl; sockets = λ k. ground arith; config = refl }

without-trace : (g : Server) (x : ℕ) → (without g x).trace ≡ g.trace
unfolding uncount_pending unlink_head
without-trace g x = refl

module _ (api : ℕ → Answer) where
  abbrev pub sent : Server → ℕ → Server
  sent g x = (post_send api (without g x) ((without g x).buffers x).sock x).0

  sent-Keeps : (g : Server) (x : ℕ) → Keeps x g (sent g x)
  unfolding post_send uncount_pending unlink_head
  sent-Keeps g x = record {
    buffers = λ q n. ground arith;
    sockets = λ k. ground arith;
    config = ground arith;
  }

  pub sent-trace : (g : Server) (x : ℕ) → (sent g x).trace ≡ send_of g x ∷ g.trace
  unfolding post_send uncount_pending unlink_head
  sent-trace g x = ground arith

  pub sent-calls : (g : Server) (x : ℕ) → (sent g x).calls ≡ g.calls + 1
  unfolding post_send uncount_pending unlink_head
  sent-calls g x = ground arith

  sent-IsQueue : (g : Server) (x : ℕ) (xs : List ℕ) → IsQueue g (x ∷ xs) → IsQueue (sent g x) xs
  unfolding post_send
  sent-IsQueue g x xs q =
      IsQueue-agree (without g x) (sent g x) x xs q.distinct.0 (λ r n. ground arith) (ground arith)
        (ground arith)
        (subst (λ r. IsQueue r.1 xs) (dequeue-cons g write x xs q)
          (dequeue-IsQueue g (x ∷ xs) write q).1)

  -- One round with a buffer in the queue and room for a send.
  round_lem :
      (g : Server) (x : ℕ) (xs : List ℕ)
      → IsQueue g (x ∷ xs)
      → signed_ltb g.outstanding_sends g.max_sends ≡ true
      → ((drain_round api g ≡ again (sent g x)) × (is_posted (api g.calls) ≡ true))
        ⊎ ((drain_round api g ≡ leave (free_buffer_obj (sent g x) x))
            × (is_posted (api g.calls) ≡ false))
  unfolding drain_round post_send uncount_pending unlink_head
  round_lem g x xs q room = ground (arith, dequeue-cons g write x xs q, q.chain.1)

-- The calls from number `n` on, one for each buffer, were all accepted.
abbrev pub AllPosted : (ℕ → Answer) → (n : ℕ) → List ℕ → Type 0
AllPosted api n [] = Unit {0}
AllPosted api n (x ∷ xs) = (is_posted (api n) ≡ true) × AllPosted api (n + 1) xs

-- Why the loop ended after `posted` with these in the queue: none was left, the limit was reached, or
-- the next send was refused and its buffer is now the first of the lookaside list.
abbrev pub Ending : (ℕ → Answer) → (g h : Server) → (posted failed left : List ℕ) → Type 0
Ending api g h posted [] left = (left ≡ []) ⊎ (signed_ltb h.outstanding_sends h.max_sends ≡ false)
Ending api g h posted (x ∷ xs) left =
    (xs ≡ []) × (is_posted (api (g.calls + length posted)) ≡ false) × (h.free_buffer_list ≡ x)

-- How `xs` was worked off on the way from `g` to `h`: some sends were posted, at most one was refused
-- and given up, the others still wait.
pub record Drained (api : ℕ → Answer) (g : Server) (xs : List ℕ) (h : Server) : Type 0 where
  pub posted : List ℕ
  pub failed : List ℕ
  pub left : List ℕ
  pub order : xs ≡ posted ++ failed ++ left
  pub queue : IsQueue h left
  pub trace : h.trace ≡ sends g (posted ++ failed) g.trace
  pub accepted : AllPosted api g.calls posted
  pub ending : Ending api g h posted failed left

module _ (api : ℕ → Answer) where
  Ending-cons :
      (g h : Server) (x : ℕ) (posted failed left : List ℕ)
      → Ending api (sent api g x) h posted failed left
      → Ending api g h (x ∷ posted) failed left
  Ending-cons g h x posted [] left e = e
  Ending-cons g h x posted (y ∷ ys) left (e, refused, first) =
      let same : (sent api g x).calls + length posted ≡ g.calls + suc (length posted) =
        omega (arith, sent-calls api g x) in
      (e, subst (λ n. is_posted (api n) ≡ false) same refused, first)

  Drained-cons :
      (g : Server) (x : ℕ) (xs : List ℕ) (h : Server)
      → NotIn x xs
      → is_posted (api g.calls) ≡ true
      → Drained api (sent api g x) xs h
      → Drained api g (x ∷ xs) h
  Drained-cons g x xs h out taken d = record {
    posted = x ∷ d.posted;
    failed = d.failed;
    left = d.left;
    order = ap (◌∷◌ x) d.order;
    queue = d.queue;
    trace =
        d.trace
        ∙ sends-Keeps x g (sent api g x) (d.posted ++ d.failed) _ (sent-Keeps api g x)
            (NotIn-front x _ d.left (subst (NotIn x) d.order out))
        ∙ ap (sends g (d.posted ++ d.failed)) (sent-trace api g x);
    accepted = (taken, subst (λ n. AllPosted api n d.posted) (sent-calls api g x) d.accepted);
    ending = Ending-cons g h x d.posted d.failed d.left d.ending;
  }

  Drained-failed :
      (g : Server) (x : ℕ) (xs : List ℕ)
      → IsQueue g (x ∷ xs)
      → is_posted (api g.calls) ≡ false
      → Drained api g (x ∷ xs) (free_buffer_obj (sent api g x) x)
  unfolding free_buffer_obj
  Drained-failed g x xs q refused = record {
    posted = [];
    failed = x ∷ [];
    left = xs;
    order = refl;
    queue =
        IsQueue-agree (sent api g x) _ x xs q.distinct.0 (λ r n. ground arith) refl refl
          (sent-IsQueue api g x xs q);
    trace = sent-trace api g x;
    accepted = tt;
    ending = (refl, subst (λ n. is_posted (api n) ≡ false) (omega arith) refused, refl);
  }

  Drained-stopped :
      (g : Server) (xs : List ℕ)
      → IsQueue g xs
      → (xs ≡ []) ⊎ (signed_ltb g.outstanding_sends g.max_sends ≡ false)
      → Drained api g xs g
  Drained-stopped g xs q r = record {
    posted = [];
    failed = [];
    left = xs;
    order = refl;
    queue = q;
    trace = refl;
    accepted = tt;
    ending = r;
  }

  round-nil : (g : Server) → IsQueue g [] → drain_round api g ≡ leave g
  unfolding drain_round
  round-nil g q = ground (arith, dequeue-nil g write q)

  round_full :
      (g : Server)
      → signed_ltb g.outstanding_sends g.max_sends ≡ false
      → drain_round api g ≡ leave g
  unfolding drain_round
  round_full g full = rw full

  -- If the queue holds a list shorter than the fuel, ProcessPendingOperations ends by itself: the
  -- list is split, in its order, into sends that the system accepted, at most one that it refused,
  -- and those that the queue still holds; exactly the first two groups were handed to WSASend, in
  -- that order, one call for each, on the socket and with the data of each buffer; and it stopped
  -- because nothing was left, because the limit was reached, or because the next send was refused,
  -- and then its buffer is the first of the lookaside list.
  pub process-Drained :
      (fuel : ℕ) (g : Server) (xs : List ℕ)
      → IsQueue g xs
      → length xs < fuel
      → Drained api g xs (process_pending_operations api fuel g)
  unfolding process_pending_operations
  process-Drained zero g xs q h = absurd (omega arith)
  process-Drained (suc fuel) g [] q h =
      rw (round-nil g q, process_pending_operations) (Drained-stopped g [] q (inl refl))
  process-Drained (suc fuel) g (x ∷ xs) q h =
      elim (Bool-cases (signed_ltb g.outstanding_sends g.max_sends)) [
        | inr full ↦
            rw (round_full g full, process_pending_operations)
              (Drained-stopped g (x ∷ xs) q (inr full))
        | inl room ↦ elim (round_lem api g x xs q room) [
          | inl (e, posted) ↦
              rw (e, process_pending_operations)
                (Drained-cons g x xs _ q.distinct.0 posted (
                  process-Drained fuel (sent api g x) xs (sent-IsQueue api g x xs q) (omega arith)))
          | inr (e, refused) ↦ rw (e, process_pending_operations) (Drained-failed g x xs q refused)
        ]
      ]

module _ (api : ℕ → Answer) where
  round_posts :
      (g : Server) (x : ℕ) (xs : List ℕ)
      → IsQueue g (x ∷ xs)
      → signed_ltb g.outstanding_sends g.max_sends ≡ true
      → is_posted (api g.calls) ≡ true
      → drain_round api g ≡ again (sent api g x)
  round_posts g x xs q room posted = ground (arith, round_lem api g x xs q room)

  rest-nil : (fuel : ℕ) (g : Server) → IsQueue g [] → process_pending_operations api fuel g ≡ g
  unfolding process_pending_operations
  rest-nil zero g q = refl
  rest-nil (suc fuel) g q = rw (round-nil api g q, process_pending_operations)

  -- A single buffer, room, and a system that takes the send.
  pub process_single :
      (fuel : ℕ) (g : Server) (x : ℕ)
      → IsQueue g (x ∷ [])
      → signed_ltb g.outstanding_sends g.max_sends ≡ true
      → is_posted (api g.calls) ≡ true
      → process_pending_operations api (suc fuel) g ≡ sent api g x
  unfolding process_pending_operations
  process_single fuel g x q room posted =
      rw (round_posts g x [] q room posted, process_pending_operations)
        (rest-nil fuel (sent api g x) (sent-IsQueue api g x [] q))
