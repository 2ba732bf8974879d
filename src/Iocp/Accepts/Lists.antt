-- ===== src/Iocp/Accepts/Lists.antt =====
-- The linked list of pending accepts of chapter06/iocpserver.cpp as a list of buffers.
use network_programming_for.Base.{
  ℕ, zero, suc, ◌<◌, ◌≡◌, ◌≢◌, refl, List, [], ◌∷◌, ◌++◌, arith, null, length, last_or, Chain,
  NotIn, IsDistinct, Chain-agree, Chain-drop, Chain-last_front, NotIn-middle, IsDistinct-drop,
  eq→==, ne→==,
}
use network_programming_for.Iocp.State.{Server, BufferObj}
use network_programming_for.Iocp.Accepts.{insert_pending_accept, search_prev, remove_pending_accept}

-- The pending accepts of the listening object, the newest one first.
pub record IsPending (g : Server) (listenobj : ℕ) (xs : List ℕ) : Type 0 where
  pub chain : Chain (λ p. (g.buffers p).next) (g.listens listenobj).pending_accepts xs
  pub distinct : IsDistinct xs

-- If the list of pending accepts holds a list of distinct buffers, then after InsertPendingAccept
-- of a buffer that is not null and not in it the list holds that buffer followed by the others.
pub insert-IsPending :
    (g : Server) (listenobj obj : ℕ) (xs : List ℕ)
    → IsPending g listenobj xs
    → obj ≢ null
    → NotIn obj xs
    → IsPending (insert_pending_accept g listenobj obj) listenobj (obj ∷ xs)
unfolding insert_pending_accept
insert-IsPending g listenobj obj [] p live out =
    rw (eq→== _ _ p.chain) (record { chain = ground arith; distinct = (tt, tt) })
insert-IsPending g listenobj obj (x ∷ xs) p live out =
    rw (ne→== (g.listens listenobj).pending_accepts null (rw p.chain.0 p.chain.1)) (record {
      chain = (
        ground arith,
        live,
        Chain-agree (λ q. (g.buffers q).next) _ obj _ (x ∷ xs) out (λ q n. ground arith)
            (ground (arith, p.chain.0, p.chain.1, p.chain.2)),
      );
      distinct = (out, p.distinct);
    })

-- The search ends just before the object.
search_prev-eq-last_or :
    (fuel : ℕ) (h : ℕ → BufferObj) (prev p : ℕ) (before : List ℕ) (obj : ℕ) (after : List ℕ)
    → Chain (λ q. (h q).next) p (before ++ obj ∷ after)
    → IsDistinct (before ++ obj ∷ after)
    → length before < fuel
    → search_prev fuel h prev p obj ≡ last_or prev before
unfolding search_prev
search_prev-eq-last_or zero h prev p before obj after c d lt = absurd (omega arith)
search_prev-eq-last_or (suc fuel) h prev p [] obj after c d lt = ground (arith, c.0)
search_prev-eq-last_or (suc fuel) h prev p (x ∷ before) obj after c d lt =
    rw
      (
        ne→== p null (rw c.0 c.1),
        ne→== p obj (rw c.0 (NotIn-middle x obj before after d.0)),
        search_prev,
        c.0,
      )
      (search_prev-eq-last_or fuel h x (h x).next before obj after c.2 d.1 (omega arith))

-- If the list of pending accepts holds a list of distinct buffers with an object in it, and the
-- fuel exceeds the number of buffers before it, then after RemovePendingAccept of the object the
-- list holds the others in the same order.
pub remove-IsPending :
    (fuel : ℕ) (g : Server) (listenobj : ℕ) (before : List ℕ) (obj : ℕ) (after : List ℕ)
    → IsPending g listenobj (before ++ obj ∷ after)
    → length before < fuel
    → IsPending (remove_pending_accept fuel g listenobj obj) listenobj (before ++ after)
unfolding remove_pending_accept
remove-IsPending fuel g listenobj [] obj after p enough =
    rw (search_prev-eq-last_or fuel g.buffers null _ [] obj after p.chain p.distinct enough)
      (record { chain = rw (eq→== listenobj listenobj refl) p.chain.2; distinct = p.distinct.1 })
remove-IsPending fuel g listenobj (x ∷ before) obj after p enough =
    rw
      (
        search_prev-eq-last_or fuel g.buffers null _ (x ∷ before) obj after p.chain p.distinct
            enough,
        ne→== (last_or x before) null
            (Chain-last_front (λ q. (g.buffers q).next) _ x before (obj ∷ after) p.chain),
      )
      (record {
        chain =
            Chain-drop (λ q. (g.buffers q).next) _ _ x before obj after (λ q n. ground arith)
              (ground arith) p.distinct p.chain;
        distinct = IsDistinct-drop obj (x ∷ before) after p.distinct;
      })
