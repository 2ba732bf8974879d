-- ===== src/RawUdp/Checksum/Verify.antt =====
-- What a receiver does with `checksum` of chapter11/iphdrinc/rawudp.cpp: the sum over the buffer
-- with the checksum in its place comes out as 0.
use network_programming_for.Base.{
  ℕ, ◌+◌, ◌*◌, ◌/◌, ◌%◌, ◌^◌, ◌<◌, ◌≡◌, List, [], ◌∷◌, ◌++◌, arith, length,
}
use network_programming_for.RawUdp.Checksum.{checksum}
use network_programming_for.RawUdp.Checksum.Sum.{word_sum, checksum_lem}

pub word_sum-append :
    (xs ys : List ℕ) → length xs % 2 ≡ 0 → word_sum (xs ++ ys) ≡ word_sum xs + word_sum ys
unfolding word_sum
word_sum-append [] ys h = omega arith
word_sum-append (a ∷ []) ys h = absurd (omega arith)
word_sum-append (a ∷ b ∷ rest) ys h = omega (arith, word_sum-append rest ys (omega arith))

word_sum_hole :
    (xs ys : List ℕ) (a b : ℕ)
    → length xs % 2 ≡ 0
    → word_sum (xs ++ a ∷ b ∷ ys) ≡ word_sum (xs ++ 0 ∷ 0 ∷ ys) + (a + 256 * b)
unfolding word_sum
word_sum_hole xs ys a b h =
    omega (arith, word_sum-append xs (a ∷ b ∷ ys) h, word_sum-append xs (0 ∷ 0 ∷ ys) h)

-- If the checksum over a buffer with a zero word at an even place is stored in that place, the
-- checksum over the buffer is 0; the sum of the words is neither 0 nor within 2^16 of 2^32.
pub checksum_verifies :
    (xs ys : List ℕ)
    → length xs % 2 ≡ 0
    → 0 < word_sum (xs ++ 0 ∷ 0 ∷ ys)
    → word_sum (xs ++ 0 ∷ 0 ∷ ys) + 2 ^ 16 < 2 ^ 32
    → checksum (xs ++ checksum (xs ++ 0 ∷ 0 ∷ ys) % 256 ∷ checksum (xs ++ 0 ∷ 0 ∷ ys) / 256 ∷ ys)
      ≡ 0
checksum_verifies xs ys even pos small =
    let c = checksum (xs ++ 0 ∷ 0 ∷ ys) in
    let p = checksum_lem (xs ++ 0 ∷ 0 ∷ ys) (omega arith) pos in
    let e = word_sum_hole xs ys (c % 256) (c / 256) even in
    let q =
      checksum_lem (xs ++ c % 256 ∷ c / 256 ∷ ys) (omega (arith, e, p.0, p.1)) (omega (arith, e)) in
    omega (arith, p.0, p.1, e, q.0, q.1)
