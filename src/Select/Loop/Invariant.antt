-- ===== src/Select/Loop/Invariant.antt =====
-- What `main` of chapter05/nonblocking/server/nbserver.cpp keeps true of the list and of the streams,
-- and how a transfer, a removal and an accept keep it.
use network_programming_for.Base.{
  ℕ, ◌+◌, ◌≤◌, ◌<◌, ◌≡◌, ◌≢◌, ◌∙◌, sym, ap, ap₂, subst, true, List, [], ◌∷◌, ◌++◌, ◌==◌, Bool-cases,
  inl, inr, arith, append-nil, NotIn, IsDistinct, All, All-map, All-append, All-front, All-back,
  Chain, Chain-agree, Back-agree, IsDistinct-between, null, All-mono, NotIn-above,
}
use network_programming_for.Select.State.{NbWorld}
use network_programming_for.Select.Objects.{remove_socket_obj, free_socket_obj, insert_socket_obj}
use network_programming_for.Select.Objects.Links.{
  next_of, prev_of, IsOpen, insert_socket_obj-IsOpen,
}
use network_programming_for.Select.Objects.Removal.{remove_socket_obj-IsOpen}
use network_programming_for.Select.Transfer.{queue_of}
use network_programming_for.Select.Transfer.Streams.{
  received, sent, queue_bytes, IsFilled, Touches, IsOpen-Touches,
}
use network_programming_for.Select.Transfer.Receiving.{Echoed}

-- What was sent for the object is how the bytes it received start.
abbrev pub IsPrefixSent : NbWorld → (sock : ℕ) → Type 0
IsPrefixSent g k = (rest : List ℕ) × (received k g.trace ≡ sent k g.trace ++ rest)

abbrev pub IsLive : NbWorld → (sock : ℕ) → Type 0
IsLive g k = Echoed g k × IsFilled (queue_of g k)

-- The streams of a TCP server whose list holds these objects: what a listed object has received is
-- what was sent for it and what it holds, what was sent for any object is how its bytes start, and
-- an address that was not given out has none.
pub record IsStreaming (g : NbWorld) (zs : List ℕ) : Type 0 where
  pub tcp : g.is_tcp ≡ true
  pub live : All (IsLive g) zs
  pub prefixes : (k : ℕ) → IsPrefixSent g k
  pub fresh : (k : ℕ) → g.heap_next ≤ k → received k g.trace ≡ sent k g.trace

IsLive-Touches :
    (k : ℕ) (g h : NbWorld) (zs : List ℕ)
    → NotIn k zs
    → Touches k g h
    → All (IsLive g) zs
    → All (IsLive h) zs
IsLive-Touches k g h zs out t live =
    All-map {P = IsLive g} {Q = IsLive h} k zs out
      (λ x n l.
        let same : queue_of h x ≡ queue_of g x = ap (λ o. o.pending) (t.others x n) in
        (
          t.got x n ∙ l.0 ∙ ap₂ ◌++◌ (sym (t.went x n)) (ap queue_bytes (sym same)),
          subst IsFilled (sym same) l.1,
        ))
      live

-- After a transfer for `k`, with or without it in the list.
module _ {k : ℕ} {g h : NbWorld} (t : Touches k g h) (low : k < g.heap_next) where
  IsStreaming-without :
      (xs ys : List ℕ)
      → IsDistinct (xs ++ k ∷ ys)
      → IsPrefixSent h k
      → IsStreaming g (xs ++ k ∷ ys)
      → IsStreaming h (xs ++ ys)
  IsStreaming-without xs ys d p s = record {
    tcp = t.tcp ∙ s.tcp;
    live = IsLive-Touches k g h (xs ++ ys) (IsDistinct-between xs k ys d) t (
        All-append (IsLive g) xs ys (All-front (IsLive g) xs (k ∷ ys) s.live)
          (All-back (IsLive g) xs (k ∷ ys) s.live).1);
    prefixes = λ q. elim (Bool-cases (k == q)) [
      | inl e ↦ let same : k ≡ q = ground (arith, e) in subst (IsPrefixSent h) same p
      | inr e ↦
          let n : k ≢ q = ground (arith, e) in
          let (rest, r) = s.prefixes q in
          (rest, t.got q n ∙ r ∙ ap (λ l. l ++ rest) (sym (t.went q n)))
    ];
    fresh = λ q above.
        let from : g.heap_next ≤ q = subst (λ m. m ≤ q) t.heap above in
        let n : k ≢ q = ground (arith, low, from) in t.got q n ∙ s.fresh q from ∙ sym (t.went q n);
  }

  IsStreaming-with :
      (xs ys : List ℕ)
      → IsDistinct (xs ++ k ∷ ys)
      → IsLive h k
      → IsStreaming g (xs ++ k ∷ ys)
      → IsStreaming h (xs ++ k ∷ ys)
  IsStreaming-with xs ys d l s =
      let r = IsStreaming-without xs ys d (queue_bytes (queue_of h k), l.0) s in
      record {
        tcp = r.tcp;
        live =
            All-append (IsLive h) xs (k ∷ ys) (All-front (IsLive h) xs ys r.live)
              (l, All-back (IsLive h) xs ys r.live);
        prefixes = r.prefixes;
        fresh = r.fresh;
      }

-- The list and the streams.
pub record IsServing (g : NbWorld) (zs : List ℕ) : Type 0 where
  pub linked : IsOpen g zs
  pub streaming : IsStreaming g zs

low_of :
    (g : NbWorld) (xs : List ℕ) (k : ℕ) (ys : List ℕ) → IsOpen g (xs ++ k ∷ ys) → k < g.heap_next
low_of g xs k ys o = (All-back (λ x. x < g.heap_next) xs (k ∷ ys) o.below).0

-- A transfer for a listed object that stays.
pub IsServing-Touches :
    (k : ℕ) (g h : NbWorld) (xs ys : List ℕ)
    → Touches k g h
    → IsLive h k
    → IsServing g (xs ++ k ∷ ys)
    → IsServing h (xs ++ k ∷ ys)
IsServing-Touches k g h xs ys t l s = record {
  linked = IsOpen-Touches k g h (xs ++ k ∷ ys) t s.linked;
  streaming = IsStreaming-with t (low_of g xs k ys s.linked) xs ys s.linked.distinct l s.streaming;
}

removed_fields :
    (g : NbWorld) (k : ℕ)
    → let h = free_socket_obj (remove_socket_obj g k) k in
      ((q : ℕ) → queue_of h q ≡ queue_of g q)
      × ((q : ℕ) → (h.sockets q).listening ≡ (g.sockets q).listening)
      × (h.trace ≡ g.trace)
      × (h.heap_next ≡ g.heap_next)
      × (h.is_tcp ≡ g.is_tcp)
unfolding free_socket_obj remove_socket_obj
removed_fields g k =
    (λ q. ground arith, λ q. ground arith, ground arith, ground arith, ground arith)

-- The queues, the calls and the heap are what the streams are about.
pub IsStreaming-same :
    (g h : NbWorld) (zs : List ℕ)
    → ((q : ℕ) → queue_of h q ≡ queue_of g q)
    → h.trace ≡ g.trace
    → h.heap_next ≡ g.heap_next
    → h.is_tcp ≡ g.is_tcp
    → IsStreaming g zs
    → IsStreaming h zs
IsStreaming-same g h zs queues trace heap tcp s = record {
  tcp = tcp ∙ s.tcp;
  live =
      All-mono {P = IsLive g} {Q = IsLive h} zs
        (λ x l. (
          subst (λ t. received x t ≡ sent x t ++ queue_bytes (queue_of h x)) (sym trace)
              (l.0 ∙ ap (λ q. sent x g.trace ++ queue_bytes q) (sym (queues x))),
          subst IsFilled (sym (queues x)) l.1,
        ))
        s.live;
  prefixes = λ x.
      subst (λ t. (rest : List ℕ) × (received x t ≡ sent x t ++ rest)) (sym trace) (s.prefixes x);
  fresh = λ x above.
      subst (λ t. received x t ≡ sent x t) (sym trace) (s.fresh x (subst (λ m. m ≤ x) heap above));
}

-- RemoveSocketObj and FreeSocketObj of a listed object after a transfer for it, whole or not.
pub IsServing-removed :
    (k : ℕ) (g h : NbWorld) (xs ys : List ℕ)
    → Touches k g h
    → IsPrefixSent h k
    → IsServing g (xs ++ k ∷ ys)
    → IsServing (free_socket_obj (remove_socket_obj h k) k) (xs ++ ys)
IsServing-removed k g h xs ys t p s =
    let (queues, _, trace, heap, tcp) = removed_fields h k in
    record {
      linked = remove_socket_obj-IsOpen h k xs ys (IsOpen-Touches k g h (xs ++ k ∷ ys) t s.linked);
      streaming =
          IsStreaming-same h _ (xs ++ ys) queues trace heap tcp (
            IsStreaming-without t (low_of g xs k ys s.linked) xs ys s.linked.distinct p
              s.streaming);
    }

pub removed_listening :
    (g : NbWorld) (k q : ℕ)
    → ((free_socket_obj (remove_socket_obj g k) k).sockets q).listening ≡ (g.sockets q).listening
removed_listening g k = (removed_fields g k).1

inserted_fields :
    (g : NbWorld) (k : ℕ)
    → let h = insert_socket_obj g k in
      ((q : ℕ) → queue_of h q ≡ queue_of g q)
      × ((q : ℕ) → (h.sockets q).listening ≡ (g.sockets q).listening)
      × (h.trace ≡ g.trace)
      × (h.heap_next ≡ g.heap_next)
      × (h.is_tcp ≡ g.is_tcp)
unfolding insert_socket_obj
inserted_fields g k =
    (λ q. ground arith, λ q. ground arith, ground arith, ground arith, ground arith)

pub inserted_listening :
    (g : NbWorld) (k q : ℕ)
    → ((insert_socket_obj g k).sockets q).listening ≡ (g.sockets q).listening
inserted_listening g k = (inserted_fields g k).1

-- A world that has one more object on its heap, and is the same in all else that matters.
pub record HasNew (g h : NbWorld) : Type 0 where
  pub others : (q : ℕ) → g.heap_next ≢ q → h.sockets q ≡ g.sockets q
  pub pending : queue_of h g.heap_next ≡ []
  pub list : h.socket_list ≡ g.socket_list
  pub end : h.socket_list_end ≡ g.socket_list_end
  pub count : h.socket_count ≡ g.socket_count
  pub freed : h.freed ≡ g.freed
  pub heap : h.heap_next ≡ g.heap_next + 1
  pub tcp : h.is_tcp ≡ g.is_tcp
  pub trace : h.trace ≡ g.trace

module _ {g h : NbWorld} (a : HasNew g h) (zs : List ℕ) where
  IsOpen-new : IsOpen g zs → IsOpen h zs
  IsOpen-new o =
      let out = NotIn-above g.heap_next zs o.below in
      let more = λ (x : ℕ) (l : x < g.heap_next). subst (λ m. x < m) (sym a.heap) (weaker x l) in
      record {
        chain =
            subst (λ p. Chain (next_of h) p zs) (sym a.list)
              (Chain-agree (next_of g) (next_of h) g.heap_next g.socket_list zs out
                (λ q n. ap (λ o. o.next) (a.others q n)) o.chain);
        back =
            Back-agree (prev_of g) (prev_of h) g.heap_next null zs out
              (λ q n. ap (λ o. o.prev) (a.others q n)) o.back;
        last = a.end ∙ o.last;
        count = a.count ∙ o.count;
        distinct = o.distinct;
        kept = subst (λ f. All (λ x. NotIn x f) zs) (sym a.freed) o.kept;
        below = All-mono zs more o.below;
        given =
            subst (λ f. All (λ x. x < h.heap_next) f) (sym a.freed) (All-mono g.freed more o.given);
        live = subst (λ m. 0 < m) (sym a.heap) (omega (arith, o.live));
      }
    where
      weaker : (x : ℕ) → x < g.heap_next → x < g.heap_next + 1
      weaker x l = omega arith

  IsStreaming-new :
      All (λ x. x < g.heap_next) zs → IsStreaming g zs → IsStreaming h (zs ++ g.heap_next ∷ [])
  IsStreaming-new below s =
      let n = g.heap_next in
      let out = NotIn-above n zs below in
      let same = λ (x : ℕ) (e : n ≢ x). ap (λ o. o.pending) (a.others x e) in
      let old : All (IsLive h) zs =
        All-map {P = IsLive g} {Q = IsLive h} n zs out
          (λ x e l. (
            subst (λ t. received x t ≡ sent x t ++ queue_bytes (queue_of h x)) (sym a.trace)
                (l.0 ∙ ap (λ q. sent x g.trace ++ queue_bytes q) (sym (same x e))),
            subst IsFilled (sym (same x e)) l.1,
          ))
          s.live in
      let bare : received n g.trace ≡ sent n g.trace ++ queue_bytes (queue_of h n) =
        s.fresh n (omega arith)
        ∙ sym (append-nil (sent n g.trace))
        ∙ ap (λ q. sent n g.trace ++ queue_bytes q) (sym a.pending) in
      record {
        tcp = a.tcp ∙ s.tcp;
        live = All-append (IsLive h) zs (n ∷ []) old (
          (
            subst (λ t. received n t ≡ sent n t ++ queue_bytes (queue_of h n)) (sym a.trace) bare,
            subst IsFilled (sym a.pending) tt,
          ),
          tt,
        );
        prefixes = λ x.
            subst (λ t. (rest : List ℕ) × (received x t ≡ sent x t ++ rest)) (sym a.trace)
              (s.prefixes x);
        fresh = λ x above.
            subst (λ t. received x t ≡ sent x t) (sym a.trace)
              (s.fresh x (let up = subst (λ m. m ≤ x) a.heap above in omega (arith, up)));
      }

-- InsertSocketObj of the new object.
pub IsServing-added :
    (g h : NbWorld) (zs : List ℕ)
    → HasNew g h
    → IsServing g zs
    → IsServing (insert_socket_obj h g.heap_next) (zs ++ g.heap_next ∷ [])
IsServing-added g h zs a s =
    let n = g.heap_next in
    let o = s.linked in
    let (queues, _, trace, heap, tcp) = inserted_fields h n in
    let low : n < h.heap_next = subst (λ m. n < m) (sym a.heap) (omega arith) in
    let alive : n ≢ null = let l = o.live in λ e. absurd (omega (arith, l, e)) in
    record {
      linked =
          insert_socket_obj-IsOpen h n zs alive (NotIn-above n zs o.below)
            (subst (NotIn n) (sym a.freed) (NotIn-above n g.freed o.given)) low (IsOpen-new a zs o);
      streaming =
          IsStreaming-same h _ (zs ++ n ∷ []) queues trace heap tcp
            (IsStreaming-new a zs o.below s.streaming);
    }
