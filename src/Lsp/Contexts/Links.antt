-- ===== src/Lsp/Contexts/Links.antt =====
-- The doubly linked list of chapter12/LSP/sockinfo.cpp as a list of addresses.
use network_programming_for.Base.{
  ℕ, ◌≡◌, ◌≢◌, ◌∙◌, sym, ap, subst, refl, true, false, List, [], ◌∷◌, ◌==◌, if◌then◌else◌,
  Bool-cases, inl, inr, arith, NotIn, IsDistinct, null, update,
}
use network_programming_for.Lsp.State.{SockInfo, LspWorld}
use network_programming_for.Lsp.Contexts.{insert_socket_info}

-- From `p` on, with `q` before it, the links run through these contexts, forth and back.
abbrev pub Runs : (ℕ → SockInfo) → (q p : ℕ) → List ℕ → Type 0
Runs f q p [] = p ≡ null
Runs f q p (x ∷ xs) = (p ≡ x) × (x ≢ null) × ((f x).prev ≡ q) × Runs f x (f x).next xs

-- The list of a provider, with no context twice.
pub record IsLinked (g : LspWorld) (v : ℕ) (xs : List ℕ) : Type 0 where
  pub runs : Runs g.infos null (g.socket_list v) xs
  pub distinct : IsDistinct xs

-- A write at another address.
pub Runs-update :
    (f : ℕ → SockInfo) (a : ℕ) (i : SockInfo) (q p : ℕ) (xs : List ℕ)
    → NotIn a xs
    → Runs f q p xs
    → Runs (update f a i) q p xs
Runs-update f a i q p [] out r = r
Runs-update f a i q p (x ∷ xs) out r =
    let same : update f a i x ≡ f x = ground (arith, out.0) in
    (
      r.0,
      r.1,
      ap (λ o. o.prev) same ∙ r.2,
      subst (λ o. Runs (update f a i) x o.next xs) (sym same)
          (Runs-update f a i x (f x).next xs out.1 r.3),
    )

-- The first context gets another predecessor.
pub Runs-prev :
    (f : ℕ → SockInfo) (q q' p x : ℕ) (xs : List ℕ)
    → NotIn x xs
    → Runs f q p (x ∷ xs)
    → Runs (update f p (record (f p) { prev = q' })) q' p (x ∷ xs)
Runs-prev f q q' p x xs out r =
    let i = record (f x) { prev = q' } in
    let same : update f x i x ≡ i = ground arith in
    let rest : Runs (update f x i) x (f x).next xs = Runs-update f x i x (f x).next xs out r.3 in
    subst (λ y. Runs (update f y (record (f y) { prev = q' })) q' p (x ∷ xs)) (sym r.0)
      (
        r.0,
        r.1,
        ap (λ o. o.prev) same,
        subst (λ o. Runs (update f x i) x o.next xs) (sym same) rest,
      )

-- A list by its contexts and its head.
pub IsLinked-of :
    (g : LspWorld) (v p : ℕ) (f : ℕ → SockInfo) (xs : List ℕ)
    → g.infos ≡ f
    → g.socket_list v ≡ p
    → Runs f null p xs
    → IsDistinct xs
    → IsLinked g v xs
IsLinked-of g v p f xs a b r d = record {
  runs = subst (λ q. Runs g.infos null q xs) (sym b) (subst (λ h. Runs h null p xs) (sym a) r);
  distinct = d;
}

-- The contexts after `s` was put in front of `p`.
abbrev in_front : (ℕ → SockInfo) → (s p : ℕ) → ℕ → SockInfo
in_front f s p =
    let f₁ = update f s (record (f s) { next = p; prev = null }) in
    if p == null then f₁ else update f₁ p (record (f₁ p) { prev = s })

in_front-Runs :
    (f : ℕ → SockInfo) (s p : ℕ) (xs : List ℕ)
    → s ≢ null
    → NotIn s xs
    → IsDistinct xs
    → Runs f null p xs
    → Runs (in_front f s p) null s (s ∷ xs)
in_front-Runs f s p [] live out d r =
    let e : (p == null) ≡ true = ground (arith, r) in
    let f₁ = update f s (record (f s) { next = p; prev = null }) in
    let f₂ = update f₁ p (record (f₁ p) { prev = s }) in
    subst (λ c. Runs (if c then f₁ else f₂) null s (s ∷ [])) (sym e)
      (refl, live, ground arith, ground (arith, r))
in_front-Runs f s p (x ∷ xs) live out d r =
    let e : (p == null) ≡ false = let a = r.0 in let b = r.1 in ground (arith, a, b) in
    let i = record (f s) { next = p; prev = null } in
    let f₁ = update f s i in
    let f₂ = update f₁ p (record (f₁ p) { prev = s }) in
    let other : s ≢ p = λ h. out.0 (h ∙ r.0) in
    let next : p ≡ (f₂ s).next = ground (arith, other) in
    subst (λ c. Runs (if c then f₁ else f₂) null s (s ∷ x ∷ xs)) (sym e)
      (
        refl,
        live,
        ground (arith, other),
        subst (λ m. Runs f₂ s m (x ∷ xs)) next
            (Runs-prev f₁ null s p x xs d.0 (Runs-update f s i null p (x ∷ xs) out r)),
      )

module _ (g : LspWorld) (v s : ℕ) where
  inserted-parts :
      ((insert_socket_info g v s).infos ≡ in_front g.infos s (g.socket_list v))
      × ((insert_socket_info g v s).socket_list v ≡ s)
  unfolding insert_socket_info
  inserted-parts = elim (Bool-cases (g.socket_list v == null)) [
    | inl empty ↦ rw empty (refl, ground arith)
    | inr more ↦ rw more (refl, ground arith)
  ]

-- If the links of a provider run forth and back through a list of distinct contexts, then after
-- InsertSocketInfo of a context that is not null and not in the list they run through the list
-- with it in front.
pub insert_socket_info-IsLinked :
    (g : LspWorld) (v s : ℕ) (xs : List ℕ)
    → s ≢ null
    → NotIn s xs
    → IsLinked g v xs
    → IsLinked (insert_socket_info g v s) v (s ∷ xs)
insert_socket_info-IsLinked g v s xs live out l =
    let (infos, head) = inserted-parts g v s in
    IsLinked-of _ v s _ (s ∷ xs) infos head
      (in_front-Runs g.infos s (g.socket_list v) xs live out l.distinct l.runs) (out, l.distinct)
