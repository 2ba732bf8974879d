-- ===== src/RawUdp/Fill/Copies.antt =====
-- `memfill` of chapter11/iphdrinc/rawudp.cpp against copies of the data, one behind the other.
use network_programming_for.Base.{
  ℕ, zero, suc, ◌-◌, ◌*◌, ◌≤◌, ◌<◌, ◌≡◌, refl, ap, ◌∙◌, ltb, lt→ltb, List, [], ◌∷◌, ◌++◌, none,
  some, length, take, false, arith, Bool-cases, inl, inr, append-nil, sym,
}
use network_programming_for.RawUdp.Fill.{memfill, put_before}

pub copies : ℕ → List ℕ → List ℕ
copies zero xs = []
copies (suc k) xs = xs ++ copies k xs

take-append-le : (n : ℕ) (xs ys : List ℕ) → n ≤ length xs → take n (xs ++ ys) ≡ take n xs
take-append-le zero xs ys h = refl
take-append-le (suc n) [] ys h = absurd (omega arith)
take-append-le (suc n) (x ∷ xs) ys h = ap (◌∷◌ x) (take-append-le n xs ys (omega arith))

-- `take` of more than a first list: `m` is its length and `n` the whole count.
take-append-ge :
    (n : ℕ) (xs ys : List ℕ)
    → length xs ≤ n
    → take n (xs ++ ys) ≡ take (length xs) xs ++ take (n - length xs) ys
take-append-ge n [] ys h = ap (λ k. take k ys) (omega arith)
take-append-ge zero (x ∷ xs) ys h = absurd (omega arith)
take-append-ge (suc n) (x ∷ xs) ys h = ap (◌∷◌ x) (
    take-append-ge n xs ys (omega arith) ∙ ap (λ k. take (length xs) xs ++ take k ys) (omega arith))

memfill_more :
    (fuel destlen : ℕ) (xs : List ℕ)
    → length xs < destlen
    → memfill (suc fuel) destlen xs
      ≡ put_before (take (length xs) xs) (memfill fuel (destlen - length xs) xs)
unfolding memfill
memfill_more fuel destlen xs h =
    let p : 0 < destlen = omega arith in rw (lt→ltb (length xs) destlen h, lt→ltb 0 destlen p) refl

memfill_last :
    (fuel destlen : ℕ) (xs : List ℕ)
    → 0 < destlen
    → destlen ≤ length xs
    → memfill (suc fuel) destlen xs
      ≡ put_before (take destlen xs) (memfill fuel (destlen - destlen) xs)
unfolding memfill
memfill_last fuel destlen xs p h =
    let e : ltb (length xs) destlen ≡ false = ground arith in rw (e, lt→ltb 0 destlen p) refl

memfill_end :
    (fuel destlen : ℕ) (xs : List ℕ) → destlen ≡ 0 → memfill (suc fuel) destlen xs ≡ some []
unfolding memfill
memfill_end fuel destlen xs h = let e : ltb 0 destlen ≡ false = ground arith in rw e

-- If k copies of the data are at least as long as the destination, k + 1 tests of the loop are
-- enough for memfill to end, and it has written the front of those copies to the length of the
-- destination.
pub memfill_lem :
    (k destlen : ℕ) (xs : List ℕ)
    → destlen ≤ k * length xs
    → memfill (suc k) destlen xs ≡ some (take destlen (copies k xs))
unfolding copies
memfill_lem zero zero xs h = memfill_end 0 0 xs refl
memfill_lem zero (suc n) xs h = absurd (omega arith)
memfill_lem (suc k) zero xs h = memfill_end (suc k) 0 xs refl
memfill_lem (suc k) (suc n) xs h = elim (Bool-cases (ltb (length xs) (suc n))) [
  | inl more ↦
      let e = memfill_more (suc k) (suc n) xs (ground arith) in
      let r = memfill_lem k (suc n - length xs) xs (omega arith) in
      rw (e, r) (ap some (sym (take-append-ge (suc n) xs (copies k xs) (ground arith))))
  | inr all ↦
      let e = memfill_last (suc k) (suc n) xs (omega arith) (ground arith) in
      let r = memfill_end k (suc n - suc n) xs (omega arith) in
      rw (e, r)
        (ap some (append-nil _ ∙ sym (take-append-le (suc n) xs (copies k xs) (ground arith))))
]

memfill_stops : (destlen : ℕ) → memfill 0 destlen [] ≡ none
unfolding memfill
memfill_stops destlen = refl

-- For empty data and a destination that is not empty, memfill does not end, whatever the fuel.
pub memfill_hangs : (fuel n : ℕ) → memfill fuel (suc n) [] ≡ none
memfill_hangs zero n = memfill_stops (suc n)
memfill_hangs (suc fuel) n =
    rw (memfill_more fuel (suc n) [] (omega arith))
      (ap (put_before []) (ap (λ d. memfill fuel d []) (omega arith) ∙ memfill_hangs fuel n))
