-- ===== src/Iocp/Args.antt =====
-- The command line: `ValidateArgs` of chapter06/iocpserver.cpp.
pub mod Totality
use network_programming_for.Base.{
  ℕ, zero, suc, ◌+◌, Bool, true, false, List, [], ◌∷◌, Option, none, some, ◌==◌, ◌&&◌, ◌||◌, not,
  if◌then◌else◌, leb, ltb, length, get_elem?, char_at, tolower, atol,
}
use network_programming_for.Iocp.State.{Config}

pub record Options : Type 0 where
  pub config : Config
  pub bind_addr : Option (List ℕ)
  pub bind_port : List ℕ

-- `usage` leaves the process; `fault` is a read past the end of `argv`.
pub data Parsed (A : Type 0) : Type 0 where
  ok : A → Parsed A
  usage : Parsed A
  fault : Parsed A

infixl 5 ◌>>=◌
abbrev pub ◌>>=◌ : {A B : Type 0} → Parsed A → (A → Parsed B) → Parsed B
ok a >>= f = f a
usage >>= f = usage
fault >>= f = fault

abbrev pub af_inet : ℕ
af_inet = 2

abbrev pub af_inet6 : ℕ
af_inet6 = 23

pub arg_at : List (List ℕ) → ℕ → Parsed (List ℕ)
arg_at argv i = elim (get_elem? argv i) [ none ↦ fault | some s ↦ ok s ]

-- `if (i+1 >= argc) usage(argv[0]);`, and then `argv[i+1]`.
pub operand : List (List ℕ) → ℕ → Parsed (List ℕ)
unfolding arg_at
operand argv i = if leb (length argv) (i + 1) then usage else arg_at argv (i + 1)

pub set_family : Options → List ℕ → Parsed Options
set_family o s =
    if char_at s 0 == b'4'
    then ok (record o { config = record o.config { address_family = af_inet } })
    else if char_at s 0 == b'6'
    then ok (record o { config = record o.config { address_family = af_inet6 } })
    else usage

-- `-oa`, `-os` and `-or`, by the third letter.
pub set_overlapped : Options → (letter : ℕ) → (value : ℕ) → Parsed Options
set_overlapped o letter value =
    if letter == b'a'
    then ok (record o { config = record o.config { max_accepts = value } })
    else if letter == b's'
    then ok (record o { config = record o.config { max_sends = value } })
    else if letter == b'r'
    then ok (record o { config = record o.config { max_receives = value } })
    else usage

pub set_counts : Options → (flag value : List ℕ) → Parsed Options
unfolding set_overlapped
set_counts o flag value =
    if length flag == 2
    then ok (record o { config = record o.config { initial_accepts = atol value } })
    else if length flag == 3
    then set_overlapped o (tolower (char_at flag 2)) (atol value)
    else usage

-- The switch on the letter of a flag that stands at `i`. Every option takes one operand.
pub set_option : List (List ℕ) → ℕ → Options → List ℕ → Parsed Options
unfolding operand set_family set_counts
set_option argv i o flag =
    let letter = tolower (char_at flag 1) in
    if letter == b'a'
    then operand argv i >>= set_family o
    else if letter == b'b'
    then operand argv i
      >>= (λ s. ok (record o { config = record o.config { buffer_size = atol s } }))
    else if letter == b'e'
    then operand argv i >>= (λ s. ok (record o { bind_port = s }))
    else if letter == b'l'
    then operand argv i >>= (λ s. ok (record o { bind_addr = some s }))
    else if letter == b'o'
    then operand argv i >>= set_counts o flag
    else usage

pub parse_flag : List (List ℕ) → ℕ → Options → List ℕ → Parsed Options
unfolding set_option
parse_flag argv i o flag =
    if not (char_at flag 0 == b'/') && not (char_at flag 0 == b'-') || ltb (length flag) 2
    then usage
    else set_option argv i o flag

-- The loop from `i`; a round goes past the flag and its operand.
pub parse_from : (fuel : ℕ) → List (List ℕ) → ℕ → Options → Parsed Options
unfolding parse_flag arg_at
parse_from zero argv i o = ok o
parse_from (suc fuel) argv i o = elim (ltb i (length argv)) [
  | false ↦ ok o
  | true ↦ arg_at argv i >>= (λ flag. parse_flag argv i o flag >>= parse_from fuel argv (i + 2))
]

abbrev pub default_options : Options
default_options = record {
  config = record {
    address_family = 0;
    buffer_size = 4096;
    initial_accepts = 5;
    max_accepts = 500;
    max_receives = 200;
    max_sends = 200;
  };
  bind_addr = none;
  bind_port = b'5' ∷ b'1' ∷ b'5' ∷ b'0' ∷ [];
}

unfoldable pub validate_args : List (List ℕ) → Parsed Options
unfolding parse_from
validate_args argv = parse_from (length argv) argv 1 default_options
