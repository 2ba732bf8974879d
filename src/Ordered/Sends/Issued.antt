-- ===== src/Ordered/Sends/Issued.antt =====
-- What sends of chapter05/iocp/server/iocpserver.cpp leave on record where each is posted.
use network_programming_for.Base.{
  ℕ, ◌+◌, ◌<◌, ◌^◌, ◌≡◌, refl, sym, ap₂, ◌∙◌, fun_ext, true, List, [], ◌∷◌, ◌++◌, arith, length,
  if◌then◌else◌, length-append,
}
use network_programming_for.Ordered.State.{Answer, is_posted, World, Request}
use network_programming_for.Ordered.Post.{post_send, contents, number_send, count_operation}
use network_programming_for.Ordered.Sends.{io_order_of, pending, set_pending}

-- The send of an object, as the system sees it.
abbrev pub request_of : World → (sock : ℕ) → ℕ → Request
request_of g k p =
    Request.send (g.sockets k).s (contents (g.buffers p))
      (if g.is_tcp then 0 else (g.buffers p).addr)

-- The trace with these sends on top, the last one first.
abbrev pub sends_of : (ℕ → Request) → List ℕ → List Request → List Request
sends_of f [] t = t
sends_of f (x ∷ xs) t = sends_of f xs (f x ∷ t)

abbrev pub last_of : World → ℕ → ℕ
last_of g k = (g.sockets k).last_send_issued

-- `sent` has been handed to the system, and `rest` is what the list holds.
pub record Issued (k : ℕ) (g h : World) (sent rest : List ℕ) : Type 0 where
  pub last : last_of h k ≡ last_of g k + length sent
  pub left : pending h k ≡ rest
  pub trace : h.trace ≡ sends_of (request_of g k) sent g.trace
  pub orders : io_order_of h ≡ io_order_of g
  pub requests : request_of h k ≡ request_of g k

sends_of-append :
    (f : ℕ → Request) (xs ys : List ℕ) (t : List Request)
    → sends_of f (xs ++ ys) t ≡ sends_of f ys (sends_of f xs t)
sends_of-append f [] ys t = refl
sends_of-append f (x ∷ xs) ys t = sends_of-append f xs ys (f x ∷ t)

pub Issued-none : (k : ℕ) (g : World) (xs : List ℕ) → pending g k ≡ xs → Issued k g g [] xs
Issued-none k g xs e = record {
  last = omega arith;
  left = e;
  trace = refl;
  orders = refl;
  requests = refl;
}

pub Issued-trans :
    (k : ℕ) (g h i : World) (xs ys rest between : List ℕ)
    → Issued k g h xs between
    → Issued k h i ys rest
    → Issued k g i (xs ++ ys) rest
Issued-trans k g h i xs ys rest between a b = record {
  last = omega (arith, a.last, b.last, length-append xs ys);
  left = b.left;
  trace =
      b.trace
      ∙ ap₂ (λ f t. sends_of f ys t) a.requests a.trace
      ∙ sym (sends_of-append (request_of g k) xs ys g.trace);
  orders = b.orders ∙ a.orders;
  requests = b.requests ∙ a.requests;
}

module _ (api : ℕ → Answer) (posted : (n : ℕ) → is_posted (api n) ≡ true) where
  pub post_send-posted : (g : World) (k p : ℕ) → (post_send api g k p).1 ≡ true
  unfolding post_send
  post_send-posted g k p = rw (posted g.calls) refl

  -- One send, and the list behind it.
  pub post_send-Issued :
      (g : World) (k p : ℕ) (rest : List ℕ)
      → last_of g k + 1 < 2 ^ 32
      → Issued k g (set_pending (post_send api g k p).0 k rest) (p ∷ []) rest
  unfolding post_send number_send count_operation
  post_send-Issued g k p rest h = record {
    last = rw (posted g.calls) (ground arith);
    left = rw (posted g.calls) (ground arith);
    trace = rw (posted g.calls) refl;
    orders = fun_ext (λ q. rw (posted g.calls) (ground arith));
    requests = fun_ext (λ q. rw (posted g.calls) (ground arith));
  }
