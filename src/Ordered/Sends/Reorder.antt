-- ===== src/Ordered/Sends/Reorder.antt =====
-- The list of chapter05/iocp/server/iocpserver.cpp as a list of numbered objects: what inserting by
-- number and taking the run of next numbers from the front do to it.
use mathlib.Core.List.Perm
use mathlib.Core.List.{Perm}
use network_programming_for.Base.{
  ℕ, zero, suc, ◌+◌, ◌≤◌, ◌≡◌, refl, ap, ap₂, List, [], ◌∷◌, ◌++◌, map, arith, length, ◌==◌, ltb,
  if◌then◌else◌, Bool-cases, inl, inr, NotIn,
}
use network_programming_for.Ordered.Sends.{insert_by}

-- The numbers strictly ascend, from `m` on.
abbrev pub IsAscending : (order : ℕ → ℕ) → ℕ → List ℕ → Type 0
IsAscending order m [] = Unit {0}
IsAscending order m (x ∷ xs) = (m ≤ order x) × IsAscending order (suc (order x)) xs

abbrev pub count_from : ℕ → ℕ → List ℕ
count_from m zero = []
count_from m (suc n) = m ∷ count_from (suc m) n

-- The run of objects numbered `m`, `m + 1`, and so on, and the rest.
abbrev pub run_of : (order : ℕ → ℕ) → ℕ → List ℕ → List ℕ × List ℕ
run_of order m [] = ([], [])
run_of order m (x ∷ xs) =
    let (run, rest) = run_of order (suc m) xs in
    if order x == m then (x ∷ run, rest) else ([], x ∷ xs)

module _ (order : ℕ → ℕ) where
  pub IsAscending-weaken :
      (m n : ℕ) (xs : List ℕ) → m ≤ n → IsAscending order n xs → IsAscending order m xs
  IsAscending-weaken m n [] h a = tt
  IsAscending-weaken m n (x ∷ xs) h a = (omega (arith, a.0), a.1)

  pub insert_by-IsAscending :
      (m p : ℕ) (xs : List ℕ)
      → m ≤ order p
      → NotIn (order p) (map order xs)
      → IsAscending order m xs
      → IsAscending order m (insert_by order p xs)
  unfolding insert_by
  insert_by-IsAscending m p [] h out a = (h, tt)
  insert_by-IsAscending m p (x ∷ xs) h out a = elim (Bool-cases (ltb (order p) (order x))) [
    | inl below ↦ rw below (h, (ground arith, a.1))
    | inr above ↦
        rw above (a.0, insert_by-IsAscending (suc (order x)) p xs (ground (arith, out.0)) out.1 a.1)
  ]

  pub insert_by-Perm : (p : ℕ) (xs : List ℕ) → Perm (insert_by order p xs) (p ∷ xs)
  unfolding insert_by
  insert_by-Perm p [] = Perm.rfl
  insert_by-Perm p (x ∷ xs) = elim (Bool-cases (ltb (order p) (order x))) [
    | inl below ↦ rw below Perm.rfl
    | inr above ↦ rw above (Perm.trans (Perm.cons x (insert_by-Perm p xs)) (Perm.swap _ _ _))
  ]

  pub run_of-append : (m : ℕ) (xs : List ℕ) → (run_of order m xs).0 ++ (run_of order m xs).1 ≡ xs
  run_of-append m [] = refl
  run_of-append m (x ∷ xs) = elim (Bool-cases (order x == m)) [
    | inl e ↦ rw e (ap (◌∷◌ x) (run_of-append (suc m) xs))
    | inr e ↦ rw e refl
  ]

  pub run_of-count :
      (m : ℕ) (xs : List ℕ)
      → map order (run_of order m xs).0 ≡ count_from m (length (run_of order m xs).0)
  run_of-count m [] = refl
  run_of-count m (x ∷ xs) = elim (Bool-cases (order x == m)) [
    | inl e ↦ rw e (ap₂ ◌∷◌ (ground arith) (run_of-count (suc m) xs))
    | inr e ↦ rw e refl
  ]

  pub run_of-IsAscending :
      (m : ℕ) (xs : List ℕ)
      → IsAscending order m xs
      → IsAscending order (suc (m + length (run_of order m xs).0)) (run_of order m xs).1
  run_of-IsAscending m [] a = tt
  run_of-IsAscending m (x ∷ xs) a = elim (Bool-cases (order x == m)) [
    | inl e ↦ rw e (
        IsAscending-weaken _ _ (run_of order (suc m) xs).1 (omega arith) (
          run_of-IsAscending (suc m) xs
            (IsAscending-weaken (suc m) (suc (order x)) xs (ground (arith, e)) a.1)))
    | inr e ↦ rw e (ground arith, a.1)
  ]
