-- ===== src/Select/Objects/Links.antt =====
-- The list of socket objects of chapter05/nonblocking/server/nbserver.cpp as a list of addresses.
use network_programming_for.Base.{
  ℕ, ◌+◌, ◌<◌, ◌≡◌, ◌≢◌, ◌∙◌, sym, subst, refl, true, false, List, [], ◌∷◌, ◌++◌, ◌==◌, Bool-cases,
  inl, inr, arith, NotIn, IsDistinct, null, Chain, Chain-append, last_or, length, length-append,
  last_or-append, IsDistinct-append, NotIn-last, All, All-append, Back, Back-append,
}
use network_programming_for.Select.State.{NbWorld}
use network_programming_for.Select.Objects.{insert_socket_obj}

abbrev pub next_of : NbWorld → ℕ → ℕ
next_of g q = (g.sockets q).next

abbrev pub prev_of : NbWorld → ℕ → ℕ
prev_of g q = (g.sockets q).prev

-- The list of the server runs forth and back through these objects, of which none was given back,
-- from `gSocketList` to `gSocketListEnd`, and `gSocketCount` is their number. All addresses given out
-- lie below the next one.
pub record IsOpen (g : NbWorld) (xs : List ℕ) : Type 0 where
  pub chain : Chain (next_of g) g.socket_list xs
  pub back : Back (prev_of g) null xs
  pub last : g.socket_list_end ≡ last_or null xs
  pub count : g.socket_count ≡ length xs
  pub distinct : IsDistinct xs
  pub kept : All (λ x. NotIn x g.freed) xs
  pub below : All (λ x. x < g.heap_next) xs
  pub given : All (λ x. x < g.heap_next) g.freed
  pub live : 0 < g.heap_next

-- The fields that an insertion sets whatever the list is.
module _ (g : NbWorld) (k : ℕ) where
  inserted_frame :
      let h = insert_socket_obj g k in
      (h.socket_count ≡ g.socket_count + 1) × (h.freed ≡ g.freed) × (h.heap_next ≡ g.heap_next)
  unfolding insert_socket_obj
  inserted_frame = elim (Bool-cases (g.socket_list == null)) [
    | inl empty ↦ rw empty (refl, refl, refl)
    | inr more ↦ rw more (refl, refl, refl)
  ]

  inserted_alone :
      g.socket_list ≡ null
      → let h = insert_socket_obj g k in
        (next_of h k ≡ null) × (prev_of h k ≡ null) × (h.socket_list ≡ k) × (h.socket_list_end ≡ k)
  unfolding insert_socket_obj
  inserted_alone e =
      let empty : (g.socket_list == null) ≡ true = ground (arith, e) in
      rw empty (ground arith, ground arith, refl, refl)

  inserted_next :
      (x : ℕ) (xs : List ℕ)
      → g.socket_list ≢ null
      → g.socket_list_end ≡ last_or x xs
      → last_or x xs ≢ k
      → let h = insert_socket_obj g k in
        ((q : ℕ) → q ≢ last_or x xs → q ≢ k → next_of h q ≡ next_of g q)
        × (next_of h (last_or x xs) ≡ k)
        × (next_of h k ≡ null)
        × ((q : ℕ) → k ≢ q → prev_of h q ≡ prev_of g q)
        × (prev_of h k ≡ last_or x xs)
        × (h.socket_list ≡ g.socket_list)
        × (h.socket_list_end ≡ k)
  unfolding insert_socket_obj
  inserted_next x xs some_list e other =
      let more : (g.socket_list == null) ≡ false = ground (arith, some_list) in
      rw more (
        λ q a b. ground (arith, a, b, e),
        ground (arith, other, e),
        ground (arith, other, e),
        λ q a. ground (arith, a, e, other),
        ground (arith, other, e),
        refl,
        refl,
      )

length-snoc : (xs : List ℕ) (k n : ℕ) → n ≡ length xs → n + 1 ≡ length (xs ++ k ∷ [])
length-snoc xs k n e = omega (arith, length-append xs (k ∷ []))

-- If the list of the server runs through objects that were not given back, then after InsertSocketObj
-- of an object outside of it that was not given back, it runs through the same and then the new one,
-- which is the end, and the count is right.
pub insert_socket_obj-IsOpen :
    (g : NbWorld) (k : ℕ) (xs : List ℕ)
    → k ≢ null
    → NotIn k xs
    → NotIn k g.freed
    → k < g.heap_next
    → IsOpen g xs
    → IsOpen (insert_socket_obj g k) (xs ++ k ∷ [])
insert_socket_obj-IsOpen g k [] live out kept low o =
    let (count, freed, top) = inserted_frame g k in
    let (next, prev, list, end) = inserted_alone g k o.chain in
    record {
      chain = (list, live, next);
      back = (prev, tt);
      last = end;
      count = count ∙ length-snoc [] k g.socket_count o.count;
      distinct = (tt, tt);
      kept = (subst (NotIn k) (sym freed) kept, tt);
      below = (rw top low, tt);
      given = rw (freed, top) o.given;
      live = rw top o.live;
    }
insert_socket_obj-IsOpen g k (x ∷ xs) live out kept low o =
    let h = insert_socket_obj g k in
    let (count, freed, top) = inserted_frame g k in
    let first = o.chain.0 in
    let some_list : g.socket_list ≢ null = λ e. o.chain.1 (sym first ∙ e) in
    let other : last_or x xs ≢ k = λ e. NotIn-last k x xs out (sym e) in
    let (far, joins, stops, same, behind, list, end) =
      inserted_next g k x xs some_list o.last other in
    record {
      chain =
          subst (λ p. Chain (next_of h) p (x ∷ xs ++ k ∷ [])) (sym list)
            (Chain-append (next_of g) (next_of h) g.socket_list x xs k far joins stops live out
              o.distinct o.chain);
      back = Back-append (prev_of g) (prev_of h) null (x ∷ xs) k same behind out o.back;
      last = end ∙ sym (last_or-append null (x ∷ xs) k);
      count = count ∙ length-snoc (x ∷ xs) k g.socket_count o.count;
      distinct = IsDistinct-append k (x ∷ xs) out o.distinct;
      kept =
          All-append (λ y. NotIn y h.freed) (x ∷ xs) (k ∷ [])
            (subst (λ f. All (λ y. NotIn y f) (x ∷ xs)) (sym freed) o.kept)
            (subst (NotIn k) (sym freed) kept, tt);
      below =
          All-append (λ y. y < h.heap_next) (x ∷ xs) (k ∷ [])
            (subst (λ n. All (λ y. y < n) (x ∷ xs)) (sym top) o.below) (rw top low, tt);
      given = rw (freed, top) o.given;
      live = rw top o.live;
    }

-- A world with the same links, list, objects given back and heap.
pub IsOpen-same :
    (g h : NbWorld) (xs : List ℕ)
    → next_of h ≡ next_of g
    → prev_of h ≡ prev_of g
    → h.socket_list ≡ g.socket_list
    → h.socket_list_end ≡ g.socket_list_end
    → h.socket_count ≡ g.socket_count
    → h.freed ≡ g.freed
    → h.heap_next ≡ g.heap_next
    → IsOpen g xs
    → IsOpen h xs
IsOpen-same g h xs next prev list end count freed heap o = record {
  chain =
      subst (λ p. Chain (next_of h) p xs) (sym list)
        (subst (λ f. Chain f g.socket_list xs) (sym next) o.chain);
  back = subst (λ f. Back f null xs) (sym prev) o.back;
  last = end ∙ o.last;
  count = count ∙ o.count;
  distinct = o.distinct;
  kept = subst (λ f. All (λ x. NotIn x f) xs) (sym freed) o.kept;
  below = subst (λ n. All (λ x. x < n) xs) (sym heap) o.below;
  given =
      subst (λ f. All (λ x. x < h.heap_next) f) (sym freed)
        (subst (λ n. All (λ x. x < n) g.freed) (sym heap) o.given);
  live = subst (λ n. 0 < n) (sym heap) o.live;
}
