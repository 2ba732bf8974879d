-- ===== src/Ordered/Sends/Counting.antt =====
-- Consecutive numbers: which are among them, and that a list which, with some of them in front, is a
-- rearrangement of more of them cannot leave a gap.
use mathlib.Core.Logic.Or
use mathlib.Core.HLevel.{⊥_prop}
use mathlib.Core.List.Perm
use mathlib.Core.List.{
  Perm, Mem, Nodup, Nodup-nil, Nodup-cons, not-mem-nil, mem-cons_self, mem-cons_of_mem,
  eq-or-mem_of_mem-cons, mem-append, mem-append_left, mem-append_right,
}
use network_programming_for.Base.{
  ℕ, zero, suc, ◌+◌, ◌≤◌, ◌<◌, ◌≡◌, refl, subst, List, [], ◌∷◌, ◌++◌, map, arith, ◌==◌, ltb,
  Bool-cases, inl, inr,
}
use network_programming_for.Ordered.Sends.Reorder.{IsAscending, count_from}

below-count : (o m n : ℕ) → o < m → ¬ Mem o (count_from m n)
below-count o m zero h = not-mem-nil
below-count o m (suc n) h = λ k.
    Or.elim ⊥_prop (eq-or-mem_of_mem-cons k) (λ e. omega (arith, e))
      (below-count o (suc m) n (omega arith))

above-count : (o m n : ℕ) → m + n ≤ o → ¬ Mem o (count_from m n)
above-count o m zero h = not-mem-nil
above-count o m (suc n) h = λ k.
    Or.elim ⊥_prop (eq-or-mem_of_mem-cons k) (λ e. omega (arith, e))
      (above-count o (suc m) n (omega arith))

pub mem-count : (o m n : ℕ) → m ≤ o → o < m + n → Mem o (count_from m n)
mem-count o m zero a b = absurd (omega arith)
mem-count o m (suc n) a b = elim (Bool-cases (o == m)) [
  | inl e ↦ subst (λ x. Mem o (x ∷ count_from (suc m) n)) (ground (arith, e)) mem-cons_self
  | inr e ↦ mem-cons_of_mem m (mem-count o (suc m) n (ground (arith, e)) (omega arith))
]

pub from_count : (o m n : ℕ) → Mem o (count_from m n) → m ≤ o
from_count o m n k = elim (Bool-cases (ltb o m)) [
  | inl below ↦ absurd (below-count o m n (ground (arith, below)) k)
  | inr above ↦ ground (arith, above)
]

pub Nodup-count_from : (m n : ℕ) → Nodup (count_from m n)
Nodup-count_from m zero = Nodup-nil
Nodup-count_from m (suc n) =
    Nodup-cons.1 (below-count m (suc m) n (omega arith), Nodup-count_from (suc m) n)

below-ascending :
    (order : ℕ → ℕ) (o m : ℕ) (xs : List ℕ)
    → IsAscending order m xs
    → o < m
    → ¬ Mem o (map order xs)
below-ascending order o m [] a h = not-mem-nil
below-ascending order o m (x ∷ xs) a h = λ k.
    Or.elim ⊥_prop (eq-or-mem_of_mem-cons k) (λ e. omega (arith, e, a.0))
      (below-ascending order o (suc (order x)) xs a.1 (omega (arith, a.0)))

nothing_left :
    (order : ℕ → ℕ) (m s n : ℕ) (xs : List ℕ)
    → Perm (count_from m s ++ map order xs) (count_from m n)
    → IsAscending order (suc (m + s)) xs
    → s ≡ n
    → xs ≡ []
nothing_left order m s n [] p a e = refl
nothing_left order m s n (x ∷ xs) p a e = absurd (
    above-count (order x) m n (omega (arith, a.0, e))
      ((Perm.mem_iff p).0 (mem-append_right (count_from m s) mem-cons_self)))

-- With the first `s` numbers in front and numbers above the next one: there are none left.
pub no_gap :
    (order : ℕ → ℕ) (m s n : ℕ) (xs : List ℕ)
    → Perm (count_from m s ++ map order xs) (count_from m n)
    → IsAscending order (suc (m + s)) xs
    → (xs ≡ []) × (s ≡ n)
no_gap order m s n xs p a = elim (Bool-cases (ltb s n)) [
  | inl less ↦
      let k = (Perm.mem_iff p).1 (mem-count (m + s) m n (omega arith) (ground (arith, less))) in
      absurd (
        Or.elim ⊥_prop (mem-append.0 k) (above-count (m + s) m s (omega arith))
          (below-ascending order (m + s) (suc (m + s)) xs a (omega arith)))
  | inr enough ↦ elim (Bool-cases (ltb n s)) [
    | inl more ↦
        let k = mem-count (m + n) m s (omega arith) (ground (arith, more)) in
        absurd (
          above-count (m + n) m n (omega arith)
            ((Perm.mem_iff p).0 (mem-append_left (map order xs) k)))
    | inr exact ↦
        let e : s ≡ n = ground (arith, enough, exact) in (nothing_left order m s n xs p a e, e)
  ]
]
