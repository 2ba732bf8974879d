-- ===== src/Parser/Reads.antt =====
-- Reads of chapter07/SIO_RCVALL/parser.cpp behind the front of a buffer.
use network_programming_for.Base.{
  ℕ, zero, suc, ◌+◌, ◌≡◌, refl, List, [], ◌∷◌, ◌++◌, get_elem?, arith, length, ap,
}
use network_programming_for.Parser.{read_short, read_long}

-- A read behind a list is a read in what follows it.
pub get-append :
    (xs ys : List ℕ) (i j : ℕ) → j ≡ length xs + i → get_elem? (xs ++ ys) j ≡ get_elem? ys i
get-append [] ys i j e = ap (get_elem? ys) (omega (arith, e))
get-append (x ∷ xs) ys i zero e = absurd (omega (arith, e))
get-append (x ∷ xs) ys i (suc j) e = get-append xs ys i j (omega (arith, e))

pub read_short-append :
    (xs ys : List ℕ) (i j : ℕ) → j ≡ length xs + i → read_short (xs ++ ys) j ≡ read_short ys i
unfolding read_short
read_short-append xs ys i j e =
    rw (get-append xs ys i j e, get-append xs ys (i + 1) (j + 1) (omega (arith, e))) refl

pub read_long-append :
    (xs ys : List ℕ) (i j : ℕ) → j ≡ length xs + i → read_long (xs ++ ys) j ≡ read_long ys i
unfolding read_long
read_long-append xs ys i j e =
    rw
      (
        get-append xs ys i j e,
        get-append xs ys (i + 1) (j + 1) (omega (arith, e)),
        get-append xs ys (i + 2) (j + 2) (omega (arith, e)),
        get-append xs ys (i + 3) (j + 3) (omega (arith, e)),
      )
      refl
