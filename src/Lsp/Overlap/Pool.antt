-- ===== src/Lsp/Overlap/Pool.antt =====
-- The pool of structures in chapter12/LSP/overlap.cpp as a stack of addresses.
use network_programming_for.Base.{
  ℕ, zero, suc, ◌+◌, ◌-◌, ◌<◌, ◌≡◌, ◌≢◌, ◌∙◌, sym, ap, subst, refl, Bool, true, false, List, [],
  ◌∷◌, ◌==◌, if◌then◌else◌, Bool-cases, inl, inr, arith, null, update, increment, NotIn, IsDistinct,
  All, Chain, Chain-agree,
}
use network_programming_for.Lsp.Overlap.State.{OverlappedPlus, LspSystem, OverlapWorld, set_info}
use network_programming_for.Lsp.Overlap.{
  default_pool_count, zeroed, link_pool, allocate_free_pool, pop_structure,
  get_overlapped_structure, putback_overlapped_structure,
}

abbrev pub link_of : (ℕ → OverlappedPlus) → ℕ → ℕ
link_of f q = (f q).next

-- The free structures are these, each of them once, and no pool is yet to come at their addresses.
pub record IsPool (w : OverlapWorld) (xs : List ℕ) : Type 0 where
  pub chain : Chain (link_of w.structures) w.free_pool xs
  pub distinct : IsDistinct xs
  pub below : All (λ x. x < w.pool_next) xs
  pub live : 0 < w.pool_next

-- The addresses from `p` on.
unfoldable pub block : (left : ℕ) → ℕ → List ℕ
block zero p = p ∷ []
block (suc left) p = p ∷ block left (p + 1)

-- What lies before the block is not written.
link_pool_before :
    (left : ℕ) (f : ℕ → OverlappedPlus) (p q : ℕ) → q < p → link_pool left f p q ≡ f q
unfolding link_pool
link_pool_before zero f p q h = ground (arith, h)
link_pool_before (suc left) f p q h =
    link_pool_before left (update f p (record zeroed { next = p + 1 })) (p + 1) q (omega arith)
    ∙ ground (arith, h)

link_pool-Chain :
    (left : ℕ) (f : ℕ → OverlappedPlus) (p : ℕ)
    → 0 < p
    → Chain (link_of (link_pool left f p)) p (block left p)
unfolding link_pool block
link_pool-Chain zero f p h = (refl, (λ e. absurd (omega (arith, e, h))), ground arith)
link_pool-Chain (suc left) f p h =
    let f₁ = update f p (record zeroed { next = p + 1 }) in
    let own : link_of (link_pool left f₁ (p + 1)) p ≡ p + 1 =
      ap (λ o. o.next) (link_pool_before left f₁ (p + 1) p (omega arith)) ∙ ground arith in
    (
      refl,
      (λ e. absurd (omega (arith, e, h))),
      subst (λ n. Chain (link_of (link_pool left f₁ (p + 1))) n (block left (p + 1))) (sym own)
          (link_pool-Chain left f₁ (p + 1) (omega arith)),
    )

block-below : (left p q : ℕ) → q < p → NotIn q (block left p)
unfolding block
block-below zero p q h = ((λ e. absurd (omega (arith, e, h))), tt)
block-below (suc left) p q h =
    ((λ e. absurd (omega (arith, e, h))), block-below left (p + 1) q (omega arith))

block-IsDistinct : (left p : ℕ) → IsDistinct (block left p)
unfolding block
block-IsDistinct zero p = (tt, tt)
block-IsDistinct (suc left) p =
    (block-below left (p + 1) p (omega arith), block-IsDistinct left (p + 1))

block-All : (left p n : ℕ) → p + left < n → All (λ x. x < n) (block left p)
unfolding block
block-All zero p n h = (omega arith, tt)
block-All (suc left) p n h = (omega arith, block-All left (p + 1) n (omega arith))

-- A structure that is free no longer.
pop-IsPool :
    (w : OverlapWorld) (x : ℕ) (xs : List ℕ)
    → IsPool w (x ∷ xs)
    → let (p, h) = pop_structure w in (p ≡ x) × (h.structures x ≡ zeroed) × IsPool h xs
pop-IsPool w x xs l =
    let h = (pop_structure w).1 in
    let e = l.chain.0 in
    (
      e,
      ground (arith, e),
      record {
        chain =
            Chain-agree (link_of w.structures) (link_of h.structures) x h.free_pool xs l.distinct.0
              (λ q n. ground (arith, n, e))
              (subst (λ y. Chain (link_of w.structures) (link_of w.structures y) xs) (sym e)
                l.chain.2);
        distinct = l.distinct.1;
        below = l.below.1;
        live = l.live;
      },
    )

counted-IsPool :
    (w : OverlapWorld) (p : ℕ) (xs : List ℕ)
    → IsPool w xs
    → let i = w.contexts.infos p in
      IsPool (set_info w p (record i { outstanding_async = increment i.outstanding_async })) xs
counted-IsPool w p xs l = record {
  chain = l.chain;
  distinct = l.distinct;
  below = l.below;
  live = l.live;
}

block_step : (left p : ℕ) → block (suc left) p ≡ p ∷ block left (p + 1)
unfolding block
block_step left p = refl

-- A pool of its own for each allocation.
allocated-IsPool :
    (sys : LspSystem) (w : OverlapWorld)
    → sys.memory w.calls ≡ true
    → 0 < w.pool_next
    → let (h, ok) = allocate_free_pool sys w in
      (ok ≡ true)
      × (h.contexts ≡ w.contexts)
      × IsPool h (block (default_pool_count - 1) w.pool_next)
unfolding allocate_free_pool
allocated-IsPool sys w room live =
    let base = w.pool_next in
    rw room (
      refl,
      refl,
      record {
        chain = link_pool-Chain 99 w.structures base live;
        distinct = block-IsDistinct 99 base;
        below = block-All 99 base (base + 100) (omega arith);
        live = omega arith;
      },
    )

no_memory :
    (sys : LspSystem) (w : OverlapWorld)
    → sys.memory w.calls ≡ false
    → allocate_free_pool sys w ≡ (record w { calls = w.calls + 1 }, false)
unfolding allocate_free_pool
no_memory sys w full = rw full refl

-- What a stack of structures gives: its first one, the first of a new block, or none.
abbrev pub pop_spec : (memory : Bool) → (base : ℕ) → List ℕ → ℕ × List ℕ
pop_spec memory base [] =
    if memory then (base, block (default_pool_count - 2) (base + 1)) else (null, [])
pop_spec memory base (x ∷ xs) = (x, xs)

-- What GetOverlappedStructure leaves, beside the structure that it gives.
abbrev pub Gives : OverlapWorld → (context : ℕ) → ℕ × List ℕ → ℕ × OverlapWorld → Type 0
Gives w p spec (s, h) =
    (s ≡ spec.0)
    × IsPool h spec.1
    × NotIn s spec.1
    × (s ≢ null → h.structures s ≡ zeroed)
    × ((h.contexts.infos p).outstanding_async ≡ increment (w.contexts.infos p).outstanding_async)

popped :
    (w g : OverlapWorld) (p x : ℕ) (xs : List ℕ)
    → IsPool g (x ∷ xs)
    → (g.contexts.infos p).outstanding_async ≡ increment (w.contexts.infos p).outstanding_async
    → Gives w p (x, xs) (pop_structure g)
popped w g p x xs l counted =
    let (e, clean, rest) = pop-IsPool g x xs l in
    (
      e,
      rest,
      subst (λ y. NotIn y xs) (sym e) l.distinct.0,
      λ n. ap (pop_structure g).1.structures e ∙ clean,
      counted,
    )

-- If the free list of the pool holds a list of distinct structures, GetOverlappedStructure gives
-- the first of it, or where it is empty the first of a new block of 100, whose others are then
-- free, or null where there is no memory for one; the structure is zeroed and no longer free, the
-- free list holds the rest, and the operation is counted at the context in any case, also where no
-- structure was given.
pub get_overlapped_structure-IsPool :
    (sys : LspSystem) (w : OverlapWorld) (p : ℕ) (xs : List ℕ)
    → IsPool w xs
    → Gives w p (pop_spec (sys.memory w.calls) w.pool_next xs) (get_overlapped_structure sys w p)
unfolding get_overlapped_structure
get_overlapped_structure-IsPool sys w p (x ∷ xs) l =
    let i = w.contexts.infos p in
    let w₁ = set_info w p (record i { outstanding_async = increment i.outstanding_async }) in
    let some : (w₁.free_pool == null) ≡ false =
      let a = l.chain.0 in let b = l.chain.1 in ground (arith, a, b) in
    rw some (popped w w₁ p x xs (counted-IsPool w p (x ∷ xs) l) (ground arith))
get_overlapped_structure-IsPool sys w p [] l =
    let i = w.contexts.infos p in
    let w₁ = set_info w p (record i { outstanding_async = increment i.outstanding_async }) in
    let none : (w₁.free_pool == null) ≡ true = let a = l.chain in ground (arith, a) in
    let counted : (w₁.contexts.infos p).outstanding_async ≡ increment i.outstanding_async =
      ground arith in
    elim (Bool-cases (sys.memory w.calls)) [
      | inl room ↦
          let (ok, same, pool) = allocated-IsPool sys w₁ room l.live in
          let g = (allocate_free_pool sys w₁).0 in
          rw (none, ok, room)
            (popped w g p w.pool_next (block 98 (w.pool_next + 1))
              (subst (IsPool g) (block_step 98 w.pool_next) pool)
              (ap (λ c. (c.infos p).outstanding_async) same ∙ counted))
      | inr full ↦
          rw (none, no_memory sys w₁ full, full)
            (
              refl,
              record { chain = l.chain; distinct = l.distinct; below = l.below; live = l.live },
              tt,
              λ e. absurd (e refl),
              counted,
            )
    ]

-- PutbackOverlappedStructure of a structure that is not free puts it in front.
pub putback-IsPool :
    (w : OverlapWorld) (p : ℕ) (xs : List ℕ)
    → p ≢ null
    → NotIn p xs
    → p < w.pool_next
    → IsPool w xs
    → IsPool (putback_overlapped_structure w p) (p ∷ xs)
unfolding putback_overlapped_structure
putback-IsPool w p xs alive out low l =
    let h = putback_overlapped_structure w p in
    let next : link_of h.structures p ≡ w.free_pool = ground arith in
    record {
      chain = (
        refl,
        alive,
        subst (λ n. Chain (link_of h.structures) n xs) (sym next)
            (Chain-agree (link_of w.structures) (link_of h.structures) p w.free_pool xs out
              (λ q n. ground (arith, n)) l.chain),
      );
      distinct = (out, l.distinct);
      below = (low, l.below);
      live = l.live;
    }
