-- ===== src/Lsp/Contexts/Removal.antt =====
-- `RemoveSocketInfo` of chapter12/LSP/sockinfo.cpp on the list of addresses.
use network_programming_for.Base.{
  ℕ, ◌≡◌, ◌≢◌, ◌∙◌, sym, ap, subst, refl, true, false, List, [], ◌∷◌, ◌++◌, ◌==◌, if◌then◌else◌,
  Bool-cases, inl, inr, arith, NotIn, IsDistinct, IsDistinct-drop, null, update,
}
use network_programming_for.Lsp.State.{SockInfo, LspWorld}
use network_programming_for.Lsp.Contexts.{remove_socket_info}
use network_programming_for.Lsp.Contexts.Links.{Runs, IsLinked, Runs-update, Runs-prev, IsLinked-of}

-- The contexts after the successor `n` of the first one has become the first.
abbrev headed : (ℕ → SockInfo) → (n : ℕ) → ℕ → SockInfo
headed f n = if n == null then f else update f n (record (f n) { prev = null })

headed-rest :
    (f : ℕ → SockInfo) (n s : ℕ) (ys : List ℕ)
    → IsDistinct ys
    → Runs f s n ys
    → Runs (headed f n) null n ys
headed-rest f n s [] d r = r
headed-rest f n s (y ∷ ys) d r =
    let live : (n == null) ≡ false = let e = r.0 in let h = r.1 in ground (arith, e, h) in
    subst (λ c. Runs (if c then f else update f n (record (f n) { prev = null })) null n (y ∷ ys))
      (sym live) (Runs-prev f s null n y ys d.0 r)

-- The contexts after the predecessor `a` and the successor `n` of one were joined.
abbrev joined : (ℕ → SockInfo) → (a n : ℕ) → ℕ → SockInfo
joined f a n =
    let f₁ = update f a (record (f a) { next = n }) in
    if n == null then f₁ else update f₁ n (record (f₁ n) { prev = a })

-- Behind the predecessor nothing but one link changes.
joined-rest :
    (f : ℕ → SockInfo) (a n s : ℕ) (ys : List ℕ)
    → NotIn a ys
    → IsDistinct ys
    → Runs f s n ys
    → Runs (joined f a n) a n ys
joined-rest f a n s [] out d r = r
joined-rest f a n s (y ∷ ys) out d r =
    let f₁ = update f a (record (f a) { next = n }) in
    let live : (n == null) ≡ false = let e = r.0 in let h = r.1 in ground (arith, e, h) in
    let f₂ = update f₁ n (record (f₁ n) { prev = a }) in
    subst (λ c. Runs (if c then f₁ else f₂) a n (y ∷ ys)) (sym live)
      (Runs-prev f₁ s a n y ys d.0 (Runs-update f a (record (f a) { next = n }) s n (y ∷ ys) out r))

-- Other contexts are untouched.
joined-frame :
    (f : ℕ → SockInfo) (a n s x : ℕ) (ys : List ℕ)
    → Runs f s n ys
    → NotIn x ys
    → x ≢ a
    → joined f a n x ≡ f x
joined-frame f a n s x [] r out h =
    let e : (n == null) ≡ true = ground (arith, r) in rw e (ground (arith, h))
joined-frame f a n s x (y ∷ ys) r out h =
    let live : (n == null) ≡ false = let e = r.0 in let g = r.1 in ground (arith, e, g) in
    let other : x ≢ n = λ e. out.0 (e ∙ r.0) in rw live (ground (arith, h, other))

joined-next :
    (f : ℕ → SockInfo) (a n s : ℕ) (ys : List ℕ)
    → Runs f s n ys
    → NotIn a ys
    → ((joined f a n a).next ≡ n) × ((joined f a n a).prev ≡ (f a).prev)
joined-next f a n s [] r out = let e : (n == null) ≡ true = ground (arith, r) in rw e (ground arith)
joined-next f a n s (y ∷ ys) r out =
    let live : (n == null) ≡ false = let e = r.0 in let g = r.1 in ground (arith, e, g) in
    let other : a ≢ n = λ e. out.0 (e ∙ r.0) in rw live (ground (arith, other))

-- The context `s` behind at least one other is taken out; others are untouched.
module _ (f : ℕ → SockInfo) (s : ℕ) (ys : List ℕ) where
  abbrev unlinked : ℕ → SockInfo
  unlinked = joined f (f s).prev (f s).next

  unlink-Runs :
      (q p w : ℕ) (zs : List ℕ)
      → IsDistinct (w ∷ zs ++ s ∷ ys)
      → Runs f q p (w ∷ zs ++ s ∷ ys)
      → Runs unlinked q p (w ∷ zs ++ ys)
        × ((f s).prev ≢ null)
        × ((x : ℕ) → NotIn x (w ∷ zs ++ s ∷ ys) → unlinked x ≡ f x)
  unlink-Runs q p w [] d r =
      let n = (f s).next in
      let back : (f s).prev ≡ w = r.3.2 in
      let tail : Runs f s n ys = r.3.3 in
      let (next, prev) = joined-next f w n s ys tail d.0.1 in
      let rest = joined-rest f w n s ys d.0.1 d.1.1 tail in
      subst
        (λ a.
          Runs (joined f a n) q p (w ∷ ys)
          × (a ≢ null)
          × ((x : ℕ) → NotIn x (w ∷ s ∷ ys) → joined f a n x ≡ f x))
        (sym back)
        (
          (r.0, r.1, prev ∙ r.2, subst (λ m. Runs (joined f w n) w m ys) (sym next) rest),
          r.1,
          λ x out. joined-frame f w n s x ys tail out.1.1 out.0,
        )
  unlink-Runs q p w (z ∷ zs) d r =
      let (runs, live, frame) = unlink-Runs w (f w).next z zs d.1 r.3 in
      let same = frame w d.0 in
      (
        (
          r.0,
          r.1,
          ap (λ o. o.prev) same ∙ r.2,
          subst (λ o. Runs unlinked w o.next (z ∷ zs ++ ys)) (sym same) runs,
        ),
        live,
        λ x out. frame x out.1,
      )

module _ (g : LspWorld) (v s : ℕ) where
  removed_first-parts :
      ((g.infos s).prev == null) ≡ true
      → ((remove_socket_info g v s).infos ≡ headed g.infos (g.infos s).next)
        × ((remove_socket_info g v s).socket_list v ≡ (g.infos s).next)
  unfolding remove_socket_info
  removed_first-parts first = elim (Bool-cases ((g.infos s).next == null)) [
    | inl last ↦ rw (first, last) (refl, ground arith)
    | inr more ↦ rw (first, more) (refl, ground arith)
  ]

  removed_inner-parts :
      ((g.infos s).prev == null) ≡ false
      → ((remove_socket_info g v s).infos ≡ joined g.infos (g.infos s).prev (g.infos s).next)
        × ((remove_socket_info g v s).socket_list v ≡ g.socket_list v)
  unfolding remove_socket_info
  removed_inner-parts inner = elim (Bool-cases ((g.infos s).next == null)) [
    | inl last ↦ rw (inner, last) (refl, refl)
    | inr more ↦ rw (inner, more) (refl, refl)
  ]

-- If the links of a provider run forth and back through a list of distinct contexts, then after
-- RemoveSocketInfo of one of them, the first, the last or one between, they run through the list
-- without it.
pub remove_socket_info-IsLinked :
    (g : LspWorld) (v s : ℕ) (xs ys : List ℕ)
    → IsLinked g v (xs ++ s ∷ ys)
    → IsLinked (remove_socket_info g v s) v (xs ++ ys)
remove_socket_info-IsLinked g v s [] ys l =
    let r = l.runs in
    let first : ((g.infos s).prev == null) ≡ true = let e = r.2 in ground (arith, e) in
    let (infos, head) = removed_first-parts g v s first in
    IsLinked-of _ v (g.infos s).next _ ys infos head
      (headed-rest g.infos (g.infos s).next s ys l.distinct.1 r.3) l.distinct.1
remove_socket_info-IsLinked g v s (w ∷ zs) ys l =
    let (runs, live, frame) =
      unlink-Runs g.infos s ys null (g.socket_list v) w zs l.distinct l.runs in
    let inner : ((g.infos s).prev == null) ≡ false = ground (arith, live) in
    let (infos, head) = removed_inner-parts g v s inner in
    IsLinked-of _ v (g.socket_list v) _ (w ∷ zs ++ ys) infos head runs
      (IsDistinct-drop s (w ∷ zs) ys l.distinct)
