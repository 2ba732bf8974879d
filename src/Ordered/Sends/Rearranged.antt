-- ===== src/Ordered/Sends/Rearranged.antt =====
-- Rearranged lists of the objects of chapter05/iocp/server/iocpserver.cpp: their length, and that
-- distinct numbers leave one order.
use mathlib.Core.Logic.Or
use mathlib.Core.HLevel.{⊥_prop}
use mathlib.Core.List.Perm
use mathlib.Core.List.{
  Perm, Mem, length as unary_length, Nodup, Nodup-cons, mem-cons_self, mem-map_of_mem,
  eq-or-mem_of_mem-cons,
}
use network_programming_for.Base.{
  ℕ, suc, ◌≡◌, ap, ap₂, subst, refl, List, [], ◌∷◌, map, arith, ◌==◌, Bool-cases, inl, inr, length,
}

pub cons_head : {x y : ℕ} {xs ys : List ℕ} → x ∷ xs ≡ y ∷ ys → x ≡ y
cons_head e = cc

cons_tail : {x y : ℕ} {xs ys : List ℕ} → x ∷ xs ≡ y ∷ ys → xs ≡ ys
cons_tail e = cc

-- Lengths of the library, and ours.
as_long : (xs ys : List ℕ) → unary_length xs ≡ unary_length ys → length xs ≡ length ys
as_long [] [] e = refl
as_long [] (y ∷ ys) e = cc
as_long (x ∷ xs) [] e = cc
as_long (x ∷ xs) (y ∷ ys) e = ap suc (as_long xs ys cc)

pub length-Perm : (xs ys : List ℕ) → Perm xs ys → length xs ≡ length ys
length-Perm xs ys p = as_long xs ys (Perm.length-eq p)

-- Distinct numbers determine the order.
pub Perm-unique :
    (order : ℕ → ℕ) (xs ys : List ℕ)
    → Perm xs ys
    → map order xs ≡ map order ys
    → Nodup (map order ys)
    → xs ≡ ys
Perm-unique order [] [] p e d = refl
Perm-unique order [] (y ∷ ys) p e d = cc
Perm-unique order (x ∷ xs) [] p e d = cc
Perm-unique order (x ∷ xs) (y ∷ ys) p e d = elim (Bool-cases (x == y)) [
  | inl same ↦
      let first : x ≡ y = ground (arith, same) in
      ap₂ ◌∷◌ first (
        Perm-unique order xs ys (Perm.cons_inv (subst (λ z. Perm (z ∷ xs) (y ∷ ys)) first p))
          (cons_tail e) (Nodup-cons.0 d).1)
  | inr other ↦ absurd (
      Or.elim ⊥_prop (eq-or-mem_of_mem-cons ((Perm.mem_iff p).0 mem-cons_self))
        (λ same. ground (arith, same, other))
        (λ behind.
          (Nodup-cons.0 d).0
            (subst (λ o. Mem o (map order ys)) (cons_head e) (mem-map_of_mem order behind))))
]
