-- ===== src/RawUdp/Checksum/Sum.antt =====
-- `checksum` of chapter11/iphdrinc/rawudp.cpp against the plain sum of the 16-bit words.
use network_programming_for.Base.{
  ℕ, ◌+◌, ◌*◌, ◌%◌, ◌^◌, ◌≤◌, ◌<◌, ◌≡◌, ◌∙◌, List, [], ◌∷◌, arith, length, u32,
}
use network_programming_for.RawUdp.Checksum.{checksum_loop, fold_carries, checksum}

-- The words as numbers, little-endian, the last one filled up by a zero byte.
unfoldable pub word_sum : List ℕ → ℕ
word_sum [] = 0
word_sum (a ∷ []) = a
word_sum (a ∷ b ∷ rest) = a + 256 * b + word_sum rest

-- Every entry is a byte.
abbrev pub IsBytes : List ℕ → Type 0
IsBytes [] = Unit {0}
IsBytes (x ∷ xs) = (x < 256) × IsBytes xs

pub word_sum-le : (xs : List ℕ) → IsBytes xs → 2 * word_sum xs ≤ 65536 * (length xs + 1)
unfolding word_sum
word_sum-le [] h = omega arith
word_sum-le (a ∷ []) h = omega arith
word_sum-le (a ∷ b ∷ rest) h = omega (arith, word_sum-le rest h.1.1)

checksum_loop-eq :
    (xs : List ℕ) (acc : ℕ) → acc + word_sum xs < 2 ^ 32 → checksum_loop xs acc ≡ acc + word_sum xs
unfolding checksum_loop word_sum
checksum_loop-eq [] acc h = omega arith
checksum_loop-eq (a ∷ []) acc h = omega arith
checksum_loop-eq (a ∷ b ∷ rest) acc h =
    checksum_loop-eq rest (u32 (acc + (a + 256 * b))) (omega arith) ∙ omega arith

-- The folded sum is the remainder by 65535, but that a sum which is not 0 never gives 0.
pub folded_lem :
    (n : ℕ)
    → n < 2 ^ 32
    → (fold_carries n % 2 ^ 16 % 65535 ≡ n % 65535)
      × (0 < n → 0 < fold_carries n % 2 ^ 16)
      × (fold_carries n < 2 ^ 17)
unfolding fold_carries
folded_lem n h = (omega arith, λ p. omega arith, omega arith)

-- For a buffer whose 16-bit words sum up to a number above 0 and below 2^32, the checksum is the
-- number below 65535 that adds up with that sum to a multiple of 65535.
pub checksum_lem :
    (xs : List ℕ)
    → word_sum xs < 2 ^ 32
    → 0 < word_sum xs
    → ((checksum xs + word_sum xs) % 65535 ≡ 0) × (checksum xs < 65535)
unfolding checksum
checksum_lem xs h pos =
    let e : checksum_loop xs 0 ≡ word_sum xs = checksum_loop-eq xs 0 (omega arith) ∙ omega arith in
    let f = folded_lem (word_sum xs) h in
    rw e (omega (arith, f.0, f.1 pos, f.2), omega (arith, f.0, f.1 pos, f.2))
