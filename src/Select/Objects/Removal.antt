-- ===== src/Select/Objects/Removal.antt =====
-- `RemoveSocketObj` of chapter05/nonblocking/server/nbserver.cpp on the list of addresses.
use network_programming_for.Base.{
  ℕ, ◌-◌, ◌<◌, ◌≡◌, ◌≢◌, ◌∙◌, sym, ap, subst, refl, fun_ext, true, false, List, [], ◌∷◌, ◌++◌, ◌==◌,
  if◌then◌else◌, arith, NotIn, IsDistinct-drop, null, Chain, Chain-drop, Chain-last_front, last_or,
  length, length-append, last_or-append, last_or-middle, NotIn-middle, NotIn-last, All, All-append,
  All-front, All-back, All-map, Back, Back-last, Back-drop, Back-drop_last, Chain-at,
  IsDistinct-back, IsDistinct-between, append-nil,
}
use network_programming_for.Select.State.{NbWorld}
use network_programming_for.Select.Objects.{remove_socket_obj, free_socket_obj}
use network_programming_for.Select.Objects.Links.{next_of, prev_of, IsOpen}

module _ (g : NbWorld) (k : ℕ) where
  -- What a removal writes, by the neighbours that there are.
  removed_next :
      (prev_of g k ≡ null → (q : ℕ) → next_of (remove_socket_obj g k) q ≡ next_of g q)
      × ((q : ℕ) → q ≢ prev_of g k → next_of (remove_socket_obj g k) q ≡ next_of g q)
      × (prev_of g k ≢ null → next_of (remove_socket_obj g k) (prev_of g k) ≡ next_of g k)
  unfolding remove_socket_obj
  removed_next = (λ e q. ground (arith, e), λ q e. ground (arith, e), λ e. ground (arith, e))

  removed_prev :
      (next_of g k ≡ null → (q : ℕ) → prev_of (remove_socket_obj g k) q ≡ prev_of g q)
      × ((q : ℕ) → next_of g k ≢ q → prev_of (remove_socket_obj g k) q ≡ prev_of g q)
      × (next_of g k ≢ null → prev_of (remove_socket_obj g k) (next_of g k) ≡ prev_of g k)
  unfolding remove_socket_obj
  removed_prev = (λ e q. ground (arith, e), λ q e. ground (arith, e), λ e. ground (arith, e))

  removed_frame :
      let h = remove_socket_obj g k in
      (h.socket_list ≡ (if g.socket_list == k then next_of g k else g.socket_list))
      × (h.socket_list_end ≡ (if g.socket_list_end == k then prev_of g k else g.socket_list_end))
      × (h.socket_count ≡ g.socket_count - 1)
      × (h.freed ≡ g.freed)
      × (h.heap_next ≡ g.heap_next)
  unfolding remove_socket_obj
  removed_frame = (refl, refl, refl, ground arith, ground arith)

  removed-Chain :
      (xs ys : List ℕ)
      → IsOpen g (xs ++ k ∷ ys)
      → Chain (next_of (remove_socket_obj g k)) (remove_socket_obj g k).socket_list (xs ++ ys)
  removed-Chain [] ys o =
      let h = remove_socket_obj g k in
      let (alone, _, _) = removed_next in
      let same : next_of h ≡ next_of g = fun_ext (alone o.back.0) in
      let (list, _, _, _, _) = removed_frame in
      let first : (g.socket_list == k) ≡ true = let e = o.chain.0 in ground (arith, e) in
      let head : h.socket_list ≡ next_of g k =
        list ∙ ap (λ b. if b then next_of g k else g.socket_list) first in
      subst (λ p. Chain (next_of h) p ys) (sym head)
        (subst (λ f. Chain f (next_of g k) ys) (sym same) o.chain.2)
  removed-Chain (x ∷ xs) ys o =
      let h = remove_socket_obj g k in
      let (_, far, joins) = removed_next in
      let before : prev_of g k ≡ last_or x xs = Back-last (prev_of g) null (x ∷ xs) k ys o.back in
      let some : prev_of g k ≢ null =
        λ e. Chain-last_front (next_of g) g.socket_list x xs (k ∷ ys) o.chain (sym before ∙ e) in
      let (list, _, _, _, _) = removed_frame in
      let other : (g.socket_list == k) ≡ false =
        let e = o.chain.0 in let n = NotIn-middle x k xs ys o.distinct.0 in ground (arith, e, n) in
      let head : h.socket_list ≡ g.socket_list =
        list ∙ ap (λ b. if b then next_of g k else g.socket_list) other in
      subst (λ p. Chain (next_of h) p (x ∷ xs ++ ys)) (sym head)
        (Chain-drop (next_of g) (next_of h) g.socket_list x xs k ys
          (λ q n. far q (λ e. n (e ∙ before))) (ap (next_of h) (sym before) ∙ joins some) o.distinct
          o.chain)

  removed-Back :
      (xs ys : List ℕ)
      → IsOpen g (xs ++ k ∷ ys)
      → Back (prev_of (remove_socket_obj g k)) null (xs ++ ys)
  removed-Back xs [] o =
      let (_, ends) = Chain-at (next_of g) g.socket_list xs k [] o.chain in
      let (alone, _, _) = removed_prev in
      Back-drop_last (prev_of g) (prev_of (remove_socket_obj g k)) null xs k (alone ends) o.back
  removed-Back xs (z ∷ ys) o =
      let (_, (at, some, _)) = Chain-at (next_of g) g.socket_list xs k (z ∷ ys) o.chain in
      let (_, far, joins) = removed_prev in
      Back-drop (prev_of g) (prev_of (remove_socket_obj g k)) null xs k z ys
        (λ q n. far q (λ e. n (sym at ∙ e)))
        (ap (prev_of (remove_socket_obj g k)) (sym at) ∙ joins (λ e. some (sym at ∙ e))) o.distinct
        o.back

  removed_last :
      (xs ys : List ℕ)
      → IsOpen g (xs ++ k ∷ ys)
      → (remove_socket_obj g k).socket_list_end ≡ last_or null (xs ++ ys)
  removed_last xs [] o =
      let (_, end, _, _, _) = removed_frame in
      let e : g.socket_list_end ≡ k = o.last ∙ last_or-append null xs k in
      let was : (g.socket_list_end == k) ≡ true = ground (arith, e) in
      end
      ∙ ap (λ b. if b then prev_of g k else g.socket_list_end) was
      ∙ Back-last (prev_of g) null xs k [] o.back
      ∙ ap (last_or null) (sym (append-nil xs))
  removed_last xs (z ∷ ys) o =
      let (_, end, _, _, _) = removed_frame in
      let e : g.socket_list_end ≡ last_or z ys = o.last ∙ last_or-middle null xs k (z ∷ ys) in
      let n : k ≢ last_or z ys = NotIn-last k z ys (IsDistinct-back xs (k ∷ z ∷ ys) o.distinct).0 in
      let other : (g.socket_list_end == k) ≡ false = ground (arith, e, n) in
      end
      ∙ ap (λ b. if b then prev_of g k else g.socket_list_end) other
      ∙ e
      ∙ sym (last_or-middle null xs z ys)

length-between : (xs ys : List ℕ) (k n : ℕ) → n ≡ length (xs ++ k ∷ ys) → n - 1 ≡ length (xs ++ ys)
length-between xs ys k n e = omega (arith, length-append xs (k ∷ ys), length-append xs ys)

All-drop {κ} :
    (P : ℕ → Type κ) (xs : List ℕ) (k : ℕ) (ys : List ℕ) → All P (xs ++ k ∷ ys) → All P (xs ++ ys)
All-drop P xs k ys h = All-append P xs ys (All-front P xs (k ∷ ys) h) (All-back P xs (k ∷ ys) h).1

-- If the list of the server runs forth and back through objects that were not given back, then
-- after RemoveSocketObj and FreeSocketObj of any of them, the first, the last or one between, it
-- runs through the others, none of which was given back, and its end and count are right.
pub remove_socket_obj-IsOpen :
    (g : NbWorld) (k : ℕ) (xs ys : List ℕ)
    → IsOpen g (xs ++ k ∷ ys)
    → IsOpen (free_socket_obj (remove_socket_obj g k) k) (xs ++ ys)
unfolding free_socket_obj
remove_socket_obj-IsOpen g k xs ys o =
    let h = remove_socket_obj g k in
    let (_, _, count, freed, top) = removed_frame g k in
    let zs = xs ++ ys in
    record {
      chain = removed-Chain g k xs ys o;
      back = removed-Back g k xs ys o;
      last = removed_last g k xs ys o;
      count = count ∙ length-between xs ys k g.socket_count o.count;
      distinct = IsDistinct-drop k xs ys o.distinct;
      kept =
          subst (λ f. All (λ x. NotIn x (k ∷ f)) zs) (sym freed)
            (All-map k zs (IsDistinct-between xs k ys o.distinct) (λ x n out. (λ e. n (sym e), out))
              (All-drop (λ x. NotIn x g.freed) xs k ys o.kept));
      below =
          subst (λ n. All (λ x. x < n) zs) (sym top)
            (All-drop (λ x. x < g.heap_next) xs k ys o.below);
      given =
          subst (λ f. All (λ x. x < h.heap_next) (k ∷ f)) (sym freed)
            (subst (λ n. All (λ x. x < n) (k ∷ g.freed)) (sym top)
              ((All-back (λ x. x < g.heap_next) xs (k ∷ ys) o.below).0, o.given));
      live = rw top o.live;
    }
