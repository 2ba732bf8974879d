-- ===== src/Ordered/Sends/Arrivals.antt =====
-- Receives of chapter05/iocp/server/iocpserver.cpp that complete in any order, as lists: each is
-- inserted, and then the run of next numbers leaves the front.
use mathlib.Core.List.Perm
use mathlib.Core.List.{
  Perm, Mem, Nodup, Nodup-cons, Nodup-append, Disjoint, mem-cons_self, mem-cons_of_mem,
  mem-append_left, mem-append_right, map-append, perm_middle, mem-map_of_mem,
}
use network_programming_for.Base.{
  ℕ, zero, suc, ◌+◌, ◌≤◌, ◌≡◌, refl, subst, sym, ap, ap₂, ◌∙◌, List, [], ◌∷◌, ◌++◌, map, arith,
  length, append_assoc, append-nil, NotIn, length-append, Bool-cases, inl, inr, ltb,
}
use network_programming_for.Ordered.Sends.{insert_by}
use network_programming_for.Ordered.Sends.Reorder.{
  IsAscending, IsAscending-weaken, count_from, run_of, insert_by-IsAscending, insert_by-Perm,
  run_of-append, run_of-count, run_of-IsAscending,
}
use network_programming_for.Ordered.Sends.Counting.{mem-count, from_count, Nodup-count_from, no_gap}

-- What has left the list, in order, and what is still in it.
abbrev pub arrivals : (order : ℕ → ℕ) → ℕ → List ℕ → List ℕ → List ℕ × List ℕ
arrivals order m xs [] = ([], xs)
arrivals order m xs (p ∷ ps) =
    let (run, rest) = run_of order m (insert_by order p xs) in
    let (sent, left) = arrivals order (m + length run) rest ps in (run ++ sent, left)

pub count_from-append : (m a b : ℕ) → count_from m (a + b) ≡ count_from m a ++ count_from (m + a) b
count_from-append m zero b =
    let z : m ≡ m + 0 = omega arith in let e : 0 + b ≡ b = omega arith in ap₂ count_from z e
count_from-append m (suc a) b =
    let e : suc a + b ≡ suc (a + b) = omega arith in
    let z : suc m + a ≡ m + suc a = omega arith in
    ap (count_from m) e
    ∙ ap (◌∷◌ m)
        (count_from-append (suc m) a b ∙ ap (λ k. count_from (suc m) a ++ count_from k b) z)

Perm-of_eq : (xs ys : List ℕ) → xs ≡ ys → Perm xs ys
Perm-of_eq xs ys e = subst (Perm xs) e Perm.rfl

module _ (order : ℕ → ℕ) where
  pub arrivals-count :
      (m : ℕ) (xs ps : List ℕ)
      → map order (arrivals order m xs ps).0 ≡ count_from m (length (arrivals order m xs ps).0)
  arrivals-count m xs [] = refl
  arrivals-count m xs (p ∷ ps) =
      let r = run_of order m (insert_by order p xs) in
      let later = arrivals-count (m + length r.0) r.1 ps in
      let sent = (arrivals order (m + length r.0) r.1 ps).0 in
      map-append order r.0 sent
      ∙ ap₂ ◌++◌ (run_of-count order m (insert_by order p xs)) later
      ∙ sym (count_from-append m (length r.0) (length sent))
      ∙ ap (count_from m) (sym (length-append r.0 sent))

  -- One arrival only moves objects.
  arrive-Perm :
      (m p : ℕ) (xs ps : List ℕ)
      → Perm
          ((run_of order m (insert_by order p xs)).0
            ++ ((run_of order m (insert_by order p xs)).1 ++ ps))
          (xs ++ p ∷ ps)
  arrive-Perm m p xs ps =
      let r = run_of order m (insert_by order p xs) in
      Perm.trans
        (Perm-of_eq _ (insert_by order p xs ++ ps) (
          sym (append_assoc r.0 r.1 ps)
          ∙ ap (λ l. l ++ ps) (run_of-append order m (insert_by order p xs))))
        (Perm.trans (Perm.append_right ps (insert_by-Perm order p xs))
          (Perm.symm (perm_middle xs ps)))

  pub arrivals-Perm :
      (m : ℕ) (xs ps : List ℕ)
      → Perm ((arrivals order m xs ps).0 ++ (arrivals order m xs ps).1) (xs ++ ps)
  arrivals-Perm m xs [] = Perm-of_eq xs (xs ++ []) (sym (append-nil xs))
  arrivals-Perm m xs (p ∷ ps) =
      let r = run_of order m (insert_by order p xs) in
      let (sent, left) = arrivals order (m + length r.0) r.1 ps in
      Perm.trans (Perm-of_eq _ (r.0 ++ (sent ++ left)) (append_assoc r.0 sent left)) (
        Perm.trans (Perm.append_left r.0 (arrivals-Perm (m + length r.0) r.1 ps))
          (arrive-Perm m p xs ps))

  NotIn-of : (o : ℕ) (ys : List ℕ) → ¬ Mem o ys → NotIn o ys
  NotIn-of o [] h = tt
  NotIn-of o (y ∷ ys) h = (
    λ e. h (subst (λ x. Mem o (x ∷ ys)) e mem-cons_self),
    NotIn-of o ys (λ k. h (mem-cons_of_mem y k)),
  )

  -- The number of a later arrival is not below those that have left.
  later_above :
      (m q : ℕ) (run later : List ℕ)
      → map order run ≡ count_from m (length run)
      → Disjoint (map order run) (map order later)
      → Mem q later
      → m ≤ order q
      → m + length run ≤ order q
  later_above m q run later c d k h = elim (Bool-cases (ltb (order q) (m + length run))) [
    | inl below ↦ absurd (
        d (order q)
          (subst (Mem (order q)) (sym c)
            (mem-count (order q) m (length run) h (ground (arith, below))))
          (mem-map_of_mem order k))
    | inr above ↦ ground (arith, above)
  ]

  pub arrivals-IsAscending :
      (m : ℕ) (xs ps : List ℕ)
      → IsAscending order (suc m) xs
      → Nodup (map order (xs ++ ps))
      → ((q : ℕ) → Mem q ps → m ≤ order q)
      → IsAscending order (suc (m + length (arrivals order m xs ps).0)) (arrivals order m xs ps).1
  arrivals-IsAscending m xs [] a d h = IsAscending-weaken order _ (suc m) xs (omega arith) a
  arrivals-IsAscending m xs (p ∷ ps) a d h =
      let r = run_of order m (insert_by order p xs) in
      let moved : Nodup (map order (p ∷ (xs ++ ps))) =
        Perm.nodup (Perm.map order (perm_middle xs ps)) d in
      let apart : Nodup (map order r.0 ++ map order (r.1 ++ ps)) =
        subst Nodup (map-append order r.0 (r.1 ++ ps))
          (Perm.nodup (Perm.map order (Perm.symm (arrive-Perm m p xs ps))) d) in
      let fresh : NotIn (order p) (map order xs) = NotIn-of (order p) (map order xs) (λ k.
        (Nodup-cons.0 moved).0 (
          subst (Mem (order p)) (sym (map-append order xs ps))
            (mem-append_left (map order ps) k))) in
      let asc =
        insert_by-IsAscending order m p xs (h p mem-cons_self) fresh
          (IsAscending-weaken order m (suc m) xs (omega arith) a) in
      let (sent, left) = arrivals order (m + length r.0) r.1 ps in
      let bound : suc (m + length (r.0 ++ sent)) ≤ suc (m + length r.0 + length sent) =
        omega (arith, length-append r.0 sent) in
      let rest =
        arrivals-IsAscending (m + length r.0) r.1 ps
          (run_of-IsAscending order m (insert_by order p xs) asc) (Nodup-append.0 apart).1
          (λ q k.
            later_above m q r.0 (r.1 ++ ps) (run_of-count order m (insert_by order p xs))
              (Nodup-append.0 apart).2 (mem-append_right r.1 k) (h q (mem-cons_of_mem p k))) in
      IsAscending-weaken order (suc (m + length (r.0 ++ sent))) (suc (m + length r.0 + length sent))
        left bound rest

  -- Numbers from `m` on without a gap, in any order of arrival: nothing is left over.
  pub arrivals-in_order :
      (m n : ℕ) (ps : List ℕ)
      → Perm (map order ps) (count_from m n)
      → ((arrivals order m [] ps).1 ≡ [])
        × (map order (arrivals order m [] ps).0 ≡ count_from m n)
        × Perm (arrivals order m [] ps).0 ps
  arrivals-in_order m n ps p =
      let (sent, left) = arrivals order m [] ps in
      let counted = arrivals-count m [] ps in
      let whole = arrivals-Perm m [] ps in
      let asc =
        arrivals-IsAscending m [] ps tt (Perm.nodup (Perm.symm p) (Nodup-count_from m n))
          (λ q k. from_count (order q) m n ((Perm.mem_iff p).0 (mem-map_of_mem order k))) in
      let numbers : Perm (count_from m (length sent) ++ map order left) (count_from m n) =
        Perm.trans
          (Perm-of_eq _ (map order (sent ++ left))
            (ap (λ l. l ++ map order left) (sym counted) ∙ sym (map-append order sent left)))
          (Perm.trans (Perm.map order whole) p) in
      let (empty, full) = no_gap order m (length sent) n left numbers asc in
      (
        empty,
        counted ∙ ap (count_from m) full,
        Perm.trans
            (Perm-of_eq sent (sent ++ left) (sym (append-nil sent) ∙ ap (◌++◌ sent) (sym empty)))
            whole,
      )
