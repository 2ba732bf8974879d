-- ===== src/Parser.antt =====
-- The packet decoder of chapter07/SIO_RCVALL: parser.cpp and parser.h. A buffer is the list of its
-- bytes; a read outside of it is none.
pub mod Tcp
pub mod Igmp
pub mod Ip
pub mod Reads
mod Fields
mod Tests
use network_programming_for.Base.{
  ℕ, suc, ◌+◌, ◌*◌, ◌/◌, ◌%◌, ◌^◌, List, Option, none, some, get_elem?, htons, htonl,
}

infixl 5 ◌>>=◌
abbrev pub ◌>>=◌ : {A B : Type 0} → Option A → (A → Option B) → Option B
none >>= f = none
some a >>= f = f a

-- `HI_WORD` and `LO_WORD` of a byte.
abbrev pub hi_word : ℕ → ℕ
hi_word byte = byte / 2 ^ 4 % 2 ^ 4

abbrev pub lo_word : ℕ → ℕ
lo_word byte = byte % 2 ^ 4

-- `memcpy(&shortval, hdr, 2); ntohs(shortval)`, and the same with 4 bytes.
unfoldable pub read_short : List ℕ → (hdr : ℕ) → Option ℕ
read_short buf hdr = do
  a ← get_elem? buf hdr
  b ← get_elem? buf (hdr + 1)
  some (htons (a + 256 * b))

unfoldable pub read_long : List ℕ → (hdr : ℕ) → Option ℕ
read_long buf hdr = do
  a ← get_elem? buf hdr
  b ← get_elem? buf (hdr + 1)
  c ← get_elem? buf (hdr + 2)
  d ← get_elem? buf (hdr + 3)
  some (htonl (a + 2 ^ 8 * b + 2 ^ 16 * c + 2 ^ 24 * d))
