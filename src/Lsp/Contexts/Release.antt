-- ===== src/Lsp/Contexts/Release.antt =====
-- The counts of chapter12/LSP/sockinfo.cpp: when `UnlockSocketContext` gives a context back.
use network_programming_for.Base.{
  ℕ, zero, suc, ◌+◌, ◌<◌, ◌^◌, ◌≡◌, ◌∙◌, sym, ap, subst, refl, true, false, List, [], ◌∷◌, ◌++◌,
  ◌==◌, ◌&&◌, if◌then◌else◌, Bool-cases, inl, inr, ◌⊎◌, arith, null, length, some, decrement,
  update,
}
use network_programming_for.Lsp.State.{
  SockInfo, LspWorld, LspCall, put_info, log_call, invalid_socket,
}
use network_programming_for.Lsp.Contexts.{remove_socket_info, unlock_socket_context, search_list}
use network_programming_for.Lsp.Contexts.Links.{Runs, IsLinked}
use network_programming_for.Lsp.Contexts.Removal.{remove_socket_info-IsLinked}

-- Only the links matter for a list.
Runs-agree :
    (f h : ℕ → SockInfo) (q p : ℕ) (xs : List ℕ)
    → ((x : ℕ) → ((h x).next ≡ (f x).next) × ((h x).prev ≡ (f x).prev))
    → Runs f q p xs
    → Runs h q p xs
Runs-agree f h q p [] same r = r
Runs-agree f h q p (x ∷ xs) same r = (
  r.0,
  r.1,
  (same x).1 ∙ r.2,
  subst (λ n. Runs h x n xs) (sym (same x).0) (Runs-agree f h x (f x).next xs same r.3),
)

pub IsLinked-put :
    (g : LspWorld) (v p : ℕ) (i : SockInfo) (xs : List ℕ)
    → i.next ≡ (g.infos p).next
    → i.prev ≡ (g.infos p).prev
    → IsLinked g v xs
    → IsLinked (put_info g p i) v xs
IsLinked-put g v p i xs a b l = record {
  runs =
      Runs-agree g.infos (update g.infos p i) null (g.socket_list v) xs
        (λ x. (ground (arith, a), ground (arith, b))) l.runs;
  distinct = l.distinct;
}

module _ (g : LspWorld) (p : ℕ) where
  -- One user less.
  abbrev counted_down : LspWorld
  counted_down = put_info g p (record (g.infos p) { ref_count = decrement (g.infos p).ref_count })

  -- The handle is closed.
  abbrev handle_closed : LspWorld
  handle_closed =
      put_info (log_call counted_down (LspCall.close_layered (g.infos p).layered_socket)) p
        (record (counted_down.infos p) { layered_socket = invalid_socket })

  unlock-cases : unlock_socket_context g p ≡ (
      if decrement (g.infos p).ref_count == 0 && (g.infos p).b_closing
      then record (remove_socket_info handle_closed (g.infos p).provider p) {
        freed = p ∷ (remove_socket_info handle_closed (g.infos p).provider p).freed;
      }
      else counted_down)
  unfolding unlock_socket_context
  unlock-cases = refl

  remove-others :
      (h : LspWorld) (v s : ℕ)
      → ((remove_socket_info h v s).trace ≡ h.trace) × ((remove_socket_info h v s).freed ≡ h.freed)
  unfolding remove_socket_info
  remove-others h v s = ground arith

  one_less :
      (zs : List ℕ)
      → IsLinked g (g.infos p).provider zs
      → IsLinked counted_down (g.infos p).provider zs
  one_less zs l =
      IsLinked-put g (g.infos p).provider p
        (record (g.infos p) { ref_count = decrement (g.infos p).ref_count }) zs refl refl l

  -- The last user of a context that is closing gives it back.
  pub unlock_socket_context-last :
      (xs ys : List ℕ)
      → IsLinked g (g.infos p).provider (xs ++ p ∷ ys)
      → (decrement (g.infos p).ref_count == 0 && (g.infos p).b_closing) ≡ true
      → let h = unlock_socket_context g p in
        (h.freed ≡ p ∷ g.freed)
        × (h.trace ≡ LspCall.close_layered (g.infos p).layered_socket ∷ g.trace)
        × IsLinked h (g.infos p).provider (xs ++ ys)
  unlock_socket_context-last xs ys l last =
      let v = (g.infos p).provider in
      let i = g.infos p in
      let counted = one_less (xs ++ p ∷ ys) l in
      let logged : IsLinked (log_call counted_down (LspCall.close_layered i.layered_socket)) v
          (xs ++ p ∷ ys) =
        record { runs = counted.runs; distinct = counted.distinct } in
      let closed : IsLinked handle_closed v (xs ++ p ∷ ys) =
        IsLinked-put (log_call counted_down (LspCall.close_layered i.layered_socket)) v p
          (record (counted_down.infos p) { layered_socket = invalid_socket }) (xs ++ p ∷ ys) refl
          refl logged in
      let gone = remove_socket_info-IsLinked handle_closed v p xs ys closed in
      let (trace, freed) = remove-others handle_closed v p in
      rw (unlock-cases, last)
        (ap (◌∷◌ p) freed, trace, record { runs = gone.runs; distinct = gone.distinct })

  -- If a context stands in the doubly linked list of its provider and has at least one user, with
  -- a 32-bit count, then UnlockSocketContext either gives it back, and then it had just one user
  -- and was closing, the layered handle was closed once, and the list of the provider holds the
  -- other contexts; or it frees nothing, asks nothing of the system, counts one user less and
  -- leaves the list.
  pub unlock_socket_context-releases :
      (xs ys : List ℕ)
      → IsLinked g (g.infos p).provider (xs ++ p ∷ ys)
      → 0 < (g.infos p).ref_count
      → (g.infos p).ref_count < 2 ^ 32
      → let v = (g.infos p).provider in
        let h = unlock_socket_context g p in
        (((g.infos p).ref_count ≡ 1)
          × ((g.infos p).b_closing ≡ true)
          × (h.freed ≡ p ∷ g.freed)
          × (h.trace ≡ LspCall.close_layered (g.infos p).layered_socket ∷ g.trace)
          × IsLinked h v (xs ++ ys))
        ⊎ ((h.freed ≡ g.freed)
            × (h.trace ≡ g.trace)
            × ((h.infos p).ref_count + 1 ≡ (g.infos p).ref_count)
            × IsLinked h v (xs ++ p ∷ ys))
  unlock_socket_context-releases xs ys l used bound =
      let i = g.infos p in
      elim (Bool-cases (decrement i.ref_count == 0 && i.b_closing)) [
        | inl last ↦
            let (freed, trace, gone) = unlock_socket_context-last xs ys l last in
            inl (ground (arith, last, used, bound), ground (arith, last), freed, trace, gone)
        | inr stays ↦
            rw (unlock-cases, stays)
              (inr (refl, refl, ground (arith, used, bound), one_less (xs ++ p ∷ ys) l))
      ]

-- The first context with this socket of the provider below, or null.
abbrev pub first_with : (ℕ → SockInfo) → (provider_sock : ℕ) → List ℕ → ℕ
first_with f s [] = null
first_with f s (x ∷ xs) = if (f x).provider_socket == s then x else first_with f s xs

-- If links run forth and back through a list of contexts that is shorter than the fuel, the search
-- of GetCallerSocket along them ends and gives the first context of the list that has the socket,
-- or null if none has it.
pub search_list-first :
    (fuel : ℕ) (g : LspWorld) (q p s : ℕ) (xs : List ℕ)
    → Runs g.infos q p xs
    → length xs < fuel
    → search_list fuel g p s ≡ some (first_with g.infos s xs)
unfolding search_list
search_list-first zero g q p s xs r h = absurd (omega arith)
search_list-first (suc fuel) g q p s [] r h =
    let e : (p == null) ≡ true = ground (arith, r) in rw (e, search_list) refl
search_list-first (suc fuel) g q p s (x ∷ xs) r h =
    let e : (x == null) ≡ false = let b = r.1 in ground (arith, b) in
    subst (λ y. search_list (suc fuel) g y s ≡ some (first_with g.infos s (x ∷ xs))) (sym r.0)
      (elim (Bool-cases ((g.infos x).provider_socket == s)) [
        | inl here ↦ rw (e, search_list, here) refl
        | inr later ↦
            rw (e, search_list, later)
              (search_list-first fuel g x (g.infos x).next s xs r.3 (omega arith))
      ])
