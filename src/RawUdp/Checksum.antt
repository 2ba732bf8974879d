-- ===== src/RawUdp/Checksum.antt =====
-- The Internet checksum: `checksum` of chapter11/iphdrinc/rawudp.cpp, on a little-endian machine.
pub mod Sum
pub mod Verify
use network_programming_for.Base.{ℕ, ◌+◌, ◌-◌, ◌*◌, ◌/◌, ◌%◌, ◌^◌, List, [], ◌∷◌, u16, u32}

-- `cksum += *buffer++` for each 16-bit word, and the last byte of an odd buffer.
pub checksum_loop : List ℕ → (cksum : ℕ) → ℕ
checksum_loop [] cksum = cksum
checksum_loop (a ∷ []) cksum = u32 (cksum + a)
checksum_loop (a ∷ b ∷ rest) cksum = checksum_loop rest (u32 (cksum + (a + 256 * b)))

-- `(cksum >> 16) + (cksum & 0xffff)`, and then `cksum += (cksum >> 16)`.
pub fold_carries : ℕ → ℕ
fold_carries cksum = let once = u32 (cksum / 2 ^ 16 + cksum % 2 ^ 16) in u32 (once + once / 2 ^ 16)

-- `(USHORT)(~cksum)`
abbrev pub complement : ℕ → ℕ
complement cksum = u16 (2 ^ 32 - 1 - cksum)

unfoldable pub checksum : List ℕ → ℕ
unfolding checksum_loop fold_carries
checksum buffer = complement (fold_carries (checksum_loop buffer 0))
