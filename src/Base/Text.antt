-- ===== src/Base/Text.antt =====
-- C strings as lists of bytes, without the terminating NUL: `tolower` and `atol`.
use Prim.Native.Nat.{ℕ, ◌+◌, ◌-◌, ◌*◌, ◌^◌}
use mathlib.Core.Bool.{Bool, ◌&&◌, ◌||◌}
use mathlib.Core.List.{List, [], ◌∷◌}
use network_programming_for.Base.Tests.{leb, ◌==◌, if◌then◌else◌}
use network_programming_for.Base.Lists.{get_or}
use network_programming_for.Base.Words.{u32}

-- `s[i]`, up to the terminating NUL.
abbrev pub char_at : List ℕ → ℕ → ℕ
char_at s i = get_or s i 0

abbrev pub tolower : ℕ → ℕ
tolower c = if leb b'A' c && leb c b'Z' then c + 32 else c

is_space : ℕ → Bool
is_space c = c == 32 || leb 9 c && leb c 13

-- The digits from the front, onto an accumulator of 32 bits.
digits_value : List ℕ → ℕ → ℕ
digits_value [] acc = acc
digits_value (c ∷ cs) acc =
    let rest = digits_value cs (u32 (acc * 10 + (c - b'0'))) in
    if leb b'0' c && leb c b'9' then rest else acc

signed_value : List ℕ → ℕ
signed_value [] = 0
signed_value (c ∷ cs) =
    if c == b'-'
    then u32 (2 ^ 32 - digits_value cs 0)
    else if c == b'+'
    then digits_value cs 0
    else digits_value (c ∷ cs) 0

-- `atol`, as the bit pattern of the result. A value that does not fit is reduced.
unfoldable pub atol : List ℕ → ℕ
unfolding is_space digits_value signed_value
atol [] = 0
atol (c ∷ cs) = let rest = atol cs in if is_space c then rest else signed_value (c ∷ cs)
