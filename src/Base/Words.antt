-- ===== src/Base/Words.antt =====
-- Machine integers as bit patterns: casts, 32-bit counters and their signed comparison, the byte
-- order of the network.
use Prim.Native.Nat.{ℕ, ◌+◌, ◌-◌, ◌*◌, ◌/◌, ◌%◌, ◌^◌, ◌<◌}
use mathlib.Core.Path.{◌≡◌}
use mathlib.Core.Bool.{Bool}
use native.Mathlib.Omega.{arith}
use network_programming_for.Base.Tests.{ltb}

abbrev pub u8 : ℕ → ℕ
u8 n = n % 2 ^ 8

abbrev pub u16 : ℕ → ℕ
u16 n = n % 2 ^ 16

abbrev pub u32 : ℕ → ℕ
u32 n = n % 2 ^ 32

-- `InterlockedIncrement`, `InterlockedDecrement` and `InterlockedExchangeAdd` on a `LONG`, read as
-- a bit pattern. `-` stops at 0, so the modulus is added first.
abbrev pub increment : ℕ → ℕ
increment n = u32 (n + 1)

abbrev pub decrement : ℕ → ℕ
decrement n = u32 (n + (2 ^ 32 - 1))

abbrev pub exchange_add : ℕ → ℕ → ℕ
exchange_add n k = u32 (n + k)

-- `<` on `LONG` or `int`, between bit patterns.
abbrev pub signed_ltb : ℕ → ℕ → Bool
signed_ltb a b = ltb (u32 (a + 2 ^ 31)) (u32 (b + 2 ^ 31))

-- `htons` and `ntohs`, `htonl` and `ntohl`, on a little-endian machine: the bytes change places.
abbrev pub htons : ℕ → ℕ
htons n = n % 256 * 256 + n / 256 % 256

abbrev pub htonl : ℕ → ℕ
htonl n = n % 256 * 2 ^ 24 + n / 256 % 256 * 2 ^ 16 + n / 2 ^ 16 % 256 * 256 + n / 2 ^ 24 % 256

pub htons-htons : (n : ℕ) → n < 2 ^ 16 → htons (htons n) ≡ n
htons-htons n h = omega arith
