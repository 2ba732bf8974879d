-- ===== src/Select/Loop/Cursor.antt =====
-- The walk of `main` of chapter05/nonblocking/server/nbserver.cpp over a list that changes under it: where
-- the pointer stands, and how much is left of the walk.
use network_programming_for.Base.{
  ℕ, ◌+◌, ◌≤◌, ◌<◌, ◌≡◌, ◌≢◌, ◌∙◌, sym, ap, subst, refl, fun_ext, Bool, false, List, [], ◌∷◌, ◌++◌,
  ◌==◌, if◌then◌else◌, Bool-cases, inl, inr, arith, NotIn, NotIn-above, Chain-at, All-back, null,
  append_assoc,
}
use network_programming_for.Select.State.{NbWorld}
use network_programming_for.Select.Objects.{remove_socket_obj, free_socket_obj, insert_socket_obj}
use network_programming_for.Select.Objects.Links.{next_of, IsOpen}
use network_programming_for.Select.Transfer.Streams.{Touches}
use network_programming_for.Select.Loop.{remove_and_advance}
use network_programming_for.Select.Loop.Invariant.{
  IsPrefixSent, IsLive, IsServing, IsServing-Touches, IsServing-removed, removed_listening, HasNew,
  IsServing-added, inserted_listening,
}

abbrev pub listening_of : NbWorld → ℕ → Bool
listening_of g q = (g.sockets q).listening

-- A listening socket counts twice, for the client that it may add to the walk.
abbrev pub weight : (ℕ → Bool) → List ℕ → ℕ
weight f [] = 0
weight f (x ∷ xs) = (if f x then 2 else 1) + weight f xs

abbrev pub tail_weight : (ℕ → Bool) → List ℕ → ℕ
tail_weight f [] = 0
tail_weight f (x ∷ xs) = weight f xs

-- The pointer stands at the rest of the list, or is null at its end.
abbrev pub Heads : ℕ → List ℕ → Type 0
Heads p [] = p ≡ null
Heads p (x ∷ xs) = p ≡ x

-- The pointer stands between what was passed and what is left, of which no more than this is weighed
-- behind the object that it stands at.
abbrev pub Cursor : ℕ → NbWorld × ℕ → Type 0
Cursor limit (g, p) =
    (xs : List ℕ) × (ys : List ℕ) × IsServing g (xs ++ ys)
    × Heads p ys
    × (tail_weight (listening_of g) ys ≤ limit)

pub tail-le : (f : ℕ → Bool) (ys : List ℕ) → tail_weight f ys ≤ weight f ys
tail-le f [] = omega arith
tail-le f (y ∷ ys) = omega arith

pub Heads-next :
    (g : NbWorld) (xs : List ℕ) (k : ℕ) (ys : List ℕ)
    → IsOpen g (xs ++ k ∷ ys)
    → Heads (next_of g k) ys
Heads-next g xs k [] o = (Chain-at (next_of g) g.socket_list xs k [] o.chain).1
Heads-next g xs k (y ∷ ys) o =
    let (_, (e, _, _)) = Chain-at (next_of g) g.socket_list xs k (y ∷ ys) o.chain in e

-- A pointer that is not null stands at an object.
pub on_head :
    (limit : ℕ) (g : NbWorld) (p : ℕ) (T : Type 0)
    → (p == null) ≡ false
    → Cursor limit (g, p)
    → ((xs : List ℕ) (k : ℕ) (ys : List ℕ)
        → IsServing g (xs ++ k ∷ ys)
        → p ≡ k
        → weight (listening_of g) ys ≤ limit
        → T)
    → T
on_head limit g p T some (xs, [], s, h, w) f = absurd (ground (arith, some, h))
on_head limit g p T some (xs, k ∷ ys, s, h, w) f = f xs k ys s h w

module _ (limit : ℕ) (k : ℕ) (g h : NbWorld) (xs ys : List ℕ) (s : IsServing g (xs ++ k ∷ ys))
    (t : Touches k g h) (w : weight (listening_of g) ys ≤ limit) where
  listening_kept : listening_of h ≡ listening_of g
  listening_kept = fun_ext (λ q. elim (Bool-cases (k == q)) [
    | inl e ↦
        let same : k ≡ q = ground (arith, e) in
        subst (λ z. listening_of h z ≡ listening_of g z) same t.listening
    | inr e ↦ ap (λ o. o.listening) (t.others q (ground (arith, e)))
  ])

  -- The object stays, and so does the pointer.
  pub Cursor-stays : IsLive h k → Cursor limit (h, k)
  Cursor-stays l = (
    xs,
    k ∷ ys,
    IsServing-Touches k g h xs ys t l s,
    refl,
    subst (λ f. weight f ys ≤ limit) (sym listening_kept) w,
  )

  -- The object is removed, and the pointer stands at the next one.
  pub Cursor-removed :
      IsPrefixSent h k → IsOpen h (xs ++ k ∷ ys) → Cursor limit (remove_and_advance h k)
  unfolding remove_and_advance
  Cursor-removed p o =
      let i = free_socket_obj (remove_socket_obj h k) k in
      let same : listening_of i ≡ listening_of g =
        fun_ext (removed_listening h k) ∙ listening_kept in
      (
        xs,
        ys,
        IsServing-removed k g h xs ys t p s,
        Heads-next h xs k ys o,
        subst (λ f. tail_weight f ys ≤ limit) (sym same)
            (let a = tail-le (listening_of g) ys in omega (arith, a, w)),
      )

-- One more client at the end.
weight-append :
    (f : ℕ → Bool) (ys : List ℕ) (n : ℕ) → f n ≡ false → weight f (ys ++ n ∷ []) ≡ weight f ys + 1
weight-append f [] n e = rw e (omega arith)
weight-append f (y ∷ ys) n e = omega (arith, weight-append f ys n e)

weight-agree :
    (f g : ℕ → Bool) (n : ℕ) (ys : List ℕ)
    → NotIn n ys
    → ((q : ℕ) → n ≢ q → g q ≡ f q)
    → weight g ys ≡ weight f ys
weight-agree f g n [] out same = refl
weight-agree f g n (y ∷ ys) out same =
    ap (λ b. (if b then 2 else 1) + weight g ys) (same y out.0)
    ∙ ap (λ m. (if f y then 2 else 1) + m) (weight-agree f g n ys out.1 same)

pub Cursor-added :
    (limit k : ℕ) (g h : NbWorld) (xs ys : List ℕ)
    → IsServing g (xs ++ k ∷ ys)
    → HasNew g h
    → listening_of h g.heap_next ≡ false
    → weight (listening_of g) ys + 1 ≤ limit
    → Cursor limit (insert_socket_obj h g.heap_next, k)
Cursor-added limit k g h xs ys s a client w =
    let n = g.heap_next in
    let i = insert_socket_obj h n in
    let same : listening_of i ≡ listening_of h = fun_ext (inserted_listening h n) in
    let out = NotIn-above n ys (All-back (λ x. x < n) xs (k ∷ ys) s.linked.below).1 in
    let old =
      weight-agree (listening_of g) (listening_of h) n ys out
        (λ q e. ap (λ o. o.listening) (a.others q e)) in
    let new = weight-append (listening_of h) ys n client in
    (
      xs,
      k ∷ (ys ++ n ∷ []),
      subst (IsServing i) (append_assoc xs (k ∷ ys) (n ∷ [])) (IsServing-added g h _ a s),
      refl,
      subst (λ f. weight f (ys ++ n ∷ []) ≤ limit) (sym same) (omega (arith, old, new, w)),
    )
