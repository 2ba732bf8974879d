-- ===== src/Iocp/Pending/Fifo.antt =====
-- The linked queue of pending sends of chapter06/iocpserver.cpp as a list of buffers.
use network_programming_for.Base.{
  ℕ, ◌≡◌, ◌≢◌, refl, sym, List, [], ◌∷◌, ◌++◌, arith, null, last_or, last_or-append, Chain, NotIn,
  IsDistinct, IsDistinct-append, Chain-append, Chain-agree, Chain-last, NotIn-last, eq→==, ne→==,
}
use network_programming_for.Iocp.State.{Operation, accept, read, write, Server, set_buffer}
use network_programming_for.Iocp.Pending.{
  count_pending, uncount_pending, link_end, unlink_head, enqueue_pending_operation,
  dequeue_pending_operation,
}

abbrev pub next_of : Server → ℕ → ℕ
next_of g p = (g.buffers p).next

-- The queue holds these buffers, in this order.
pub record IsQueue (g : Server) (xs : List ℕ) : Type 0 where
  pub chain : Chain (next_of g) g.pending_send_list xs
  pub at_end : g.pending_send_list_end ≡ last_or null xs
  pub distinct : IsDistinct xs

abbrev pub head_or : ℕ → List ℕ → ℕ
head_or d [] = d
head_or d (x ∷ xs) = x

abbrev pub tail : List ℕ → List ℕ
tail [] = []
tail (x ∷ xs) = xs

-- What happens to buffers outside the queue, and to anything but the queue's links, is no matter.
pub IsQueue-agree :
    (g h : Server) (y : ℕ) (xs : List ℕ)
    → NotIn y xs
    → ((q : ℕ) → y ≢ q → next_of h q ≡ next_of g q)
    → h.pending_send_list ≡ g.pending_send_list
    → h.pending_send_list_end ≡ g.pending_send_list_end
    → IsQueue g xs
    → IsQueue h xs
IsQueue-agree g h y xs out same e₁ e₂ q = record {
  chain = Chain-agree (next_of g) (next_of h) y h.pending_send_list xs out same (rw e₁ q.chain);
  at_end = rw e₂ q.at_end;
  distinct = q.distinct;
}

link_end-IsQueue :
    (g : Server) (xs : List ℕ) (obj : ℕ)
    → IsQueue g xs
    → obj ≢ null
    → NotIn obj xs
    → next_of g obj ≡ null
    → IsQueue (link_end g obj) (xs ++ obj ∷ [])
unfolding link_end
link_end-IsQueue g [] obj q live out stops =
    rw (eq→== _ _ q.at_end)
      (record { chain = (refl, live, stops); at_end = refl; distinct = (tt, tt) })
link_end-IsQueue g (x ∷ xs) obj q live out stops =
    rw (ne→== g.pending_send_list_end null (rw q.at_end (Chain-last _ _ x xs q.chain))) (record {
      chain =
          Chain-append (next_of g) _ _ x xs obj (λ r a b. ground (arith, q.at_end))
            (ground (arith, q.at_end)) (ground (arith, q.at_end, NotIn-last obj x xs out)) live out
            q.distinct q.chain;
      at_end = sym (last_or-append x xs obj);
      distinct = IsDistinct-append obj (x ∷ xs) out q.distinct;
    })

count_pending-IsQueue :
    (g : Server) (xs : List ℕ) (obj : ℕ) (op : Operation)
    → IsQueue g xs
    → IsQueue (count_pending g obj op) xs
unfolding count_pending
count_pending-IsQueue g xs obj accept q = q
count_pending-IsQueue g xs obj read q = q
count_pending-IsQueue g xs obj write q = record {
  chain = q.chain;
  at_end = q.at_end;
  distinct = q.distinct;
}

-- If the linked queue of pending sends holds a list of distinct buffers, then after
-- EnqueuePendingOperation of a buffer that is not null and not in that list it holds the list with
-- the buffer at its end, the end pointer included.
pub enqueue-IsQueue :
    (g : Server) (xs : List ℕ) (obj : ℕ) (op : Operation)
    → IsQueue g xs
    → obj ≢ null
    → NotIn obj xs
    → IsQueue (enqueue_pending_operation g obj op) (xs ++ obj ∷ [])
unfolding enqueue_pending_operation
enqueue-IsQueue g xs obj op q live out =
    let g₁ = count_pending g obj op in
    let g₂ = set_buffer g₁ obj (record (g₁.buffers obj) { next = null }) in
    link_end-IsQueue g₂ xs obj
      (IsQueue-agree g₁ g₂ obj xs out (λ r a. ground arith) refl refl
        (count_pending-IsQueue g xs obj op q))
      live out (ground arith)

unlink_head-IsQueue :
    (g : Server) (x : ℕ) (xs : List ℕ) → IsQueue g (x ∷ xs) → IsQueue (unlink_head g x) xs
unfolding unlink_head
unlink_head-IsQueue g x [] q = record {
  chain = q.chain.2;
  at_end = rw (eq→== _ _ q.chain.2);
  distinct = tt;
}
unlink_head-IsQueue g x (y ∷ xs) q = record {
  chain = q.chain.2;
  at_end = ground (arith, q.at_end, q.chain.2.0, q.chain.2.1);
  distinct = q.distinct.1;
}

uncount_pending-IsQueue :
    (g : Server) (xs : List ℕ) (obj : ℕ) (op : Operation)
    → IsQueue g xs
    → IsQueue (uncount_pending g obj op) xs
unfolding uncount_pending
uncount_pending-IsQueue g xs obj accept q = q
uncount_pending-IsQueue g xs obj read q = q
uncount_pending-IsQueue g xs obj write q = record {
  chain = q.chain;
  at_end = q.at_end;
  distinct = q.distinct;
}

-- What a dequeue returns and leaves, by whether the queue is empty.
pub dequeue-nil :
    (g : Server) (op : Operation) → IsQueue g [] → dequeue_pending_operation g op ≡ (null, g)
unfolding dequeue_pending_operation
dequeue-nil g op q = rw (eq→== _ _ q.chain)

pub dequeue-cons :
    (g : Server) (op : Operation) (x : ℕ) (xs : List ℕ)
    → IsQueue g (x ∷ xs)
    → dequeue_pending_operation g op ≡ (x, uncount_pending (unlink_head g x) x op)
unfolding dequeue_pending_operation
dequeue-cons g op x xs q = rw (ne→== g.pending_send_list null (rw q.chain.0 q.chain.1), q.chain.0)

-- If the queue holds a list, DequeuePendingOperation returns its first buffer, or null where the
-- list is empty, and the queue then holds the rest of the list in the same order.
pub dequeue-IsQueue :
    (g : Server) (xs : List ℕ) (op : Operation)
    → IsQueue g xs
    → ((dequeue_pending_operation g op).0 ≡ head_or null xs)
      × IsQueue (dequeue_pending_operation g op).1 (tail xs)
dequeue-IsQueue g [] op q = rw (dequeue-nil g op q) (refl, q)
dequeue-IsQueue g (x ∷ xs) op q =
    rw (dequeue-cons g op x xs q)
      (refl, uncount_pending-IsQueue _ xs x op (unlink_head-IsQueue g x xs q))
