-- ===== src/RawUdp/Args.antt =====
-- The command line: `ValidateArgs` of chapter11/iphdrinc/rawudp.cpp.
pub mod Totality
use network_programming_for.Base.{
  ℕ, Bool, true, false, List, [], ◌∷◌, Option, none, some, ◌==◌, ◌||◌, if◌then◌else◌, length,
  char_at, tolower, atol,
}

-- The global variables that the command line sets; none is NULL. Sizes are bit patterns.
pub record Options : Type 0 where
  pub src_address : Option (List ℕ)
  pub dest_address : Option (List ℕ)
  pub src_port : Option (List ℕ)
  pub dest_port : Option (List ℕ)
  pub message : List ℕ
  pub address_family : ℕ
  pub protocol : ℕ
  pub send_size : ℕ
  pub mtu_size : ℕ
  pub send_count : ℕ
  pub sender : Bool
  pub read_raw : Bool

-- `usage` leaves the process; `fault` is a read through `argv[argc]`, which is NULL.
pub data Parsed : Type 0 where
  ok : Options → Parsed
  usage : Parsed
  fault : Parsed

-- The initial values, with `gMessage = DEFAULT_MESSAGE`. `AF_UNSPEC` is 0, `IPPROTO_UDP` 17.
abbrev pub default_options : Options
default_options = record {
  src_address = none;
  dest_address = none;
  src_port = none;
  dest_port = none;
  message = 84 ∷ 104 ∷ 105 ∷ 115 ∷ 32 ∷ 105 ∷ 115 ∷ 32 ∷ 97 ∷ 32 ∷ 116 ∷ 101 ∷ 115 ∷ 116 ∷ [];
  address_family = 0;
  protocol = 17;
  send_size = 0;
  mtu_size = 1496;
  send_count = 0;
  sender = true;
  read_raw = true;
}

-- `argv[i+1][0]` is read without a test that `argv[i+1]` is there.
unfoldable pub set_family : Options → Option (List ℕ) → Parsed
set_family o none = fault
set_family o (some s) =
    if char_at s 0 == b'4'
    then ok (record o { address_family = 2 })
    else if char_at s 0 == b'6'
    then ok (record o { address_family = 23 })
    else usage

-- `-sa` and `-sp`, `-da` and `-dp`, by the third letter. What is stored may be `argv[argc]`.
unfoldable pub set_source : Options → (letter : ℕ) → Option (List ℕ) → Parsed
set_source o letter value =
    if letter == b'a'
    then ok (record o { src_address = value })
    else if letter == b'p'
    then ok (record o { src_port = value })
    else usage

unfoldable pub set_destination : Options → (letter : ℕ) → Option (List ℕ) → Parsed
set_destination o letter value =
    if letter == b'a'
    then ok (record o { dest_address = value })
    else if letter == b'p'
    then ok (record o { dest_port = value })
    else usage

-- The flags behind the test `i+1 >= argc`, and every other letter.
unfoldable pub set_value : Options → (flag : List ℕ) → (letter : ℕ) → Option (List ℕ) → Parsed
set_value o flag letter none = usage
set_value o flag letter (some s) =
    if letter == b'n'
    then ok (record o { send_count = atol s })
    else if letter == b'm'
    then ok (record o { message = s })
    else if letter == b'p'
    then ok (record o { protocol = atol s })
    else if letter == b'r'
    then ok (record o {
      read_raw = if length flag == 3 then false else o.read_raw;
      src_port = some s;
      sender = false;
    })
    else if letter == b't'
    then ok (record o { mtu_size = atol s })
    else if letter == b'z'
    then ok (record o { send_size = atol s })
    else usage

unfoldable pub set_option : Options → (flag : List ℕ) → (value : Option (List ℕ)) → Parsed
set_option o flag value =
    let letter = tolower (char_at flag 1) in
    if letter == b'a'
    then set_family o value
    else if letter == b's'
    then set_source o (tolower (char_at flag 2)) value
    else if letter == b'd'
    then set_destination o (tolower (char_at flag 2)) value
    else set_value o flag letter value

unfoldable pub is_flag : List ℕ → Bool
is_flag arg = char_at arg 0 == b'-' || char_at arg 0 == b'/'

unfoldable pub and_then : Parsed → (Options → Parsed) → Parsed
and_then (ok o) f = f o
and_then usage f = usage
and_then fault f = fault

-- `argv[i]` and what follows it; a flag takes the next argument with it.
unfoldable pub parse_args : Options → List (List ℕ) → Parsed
parse_args o [] = ok o
parse_args o (arg ∷ []) = if is_flag arg then set_option o arg none else ok o
parse_args o (arg ∷ value ∷ rest) =
    let skipped = parse_args o (value ∷ rest) in
    if is_flag arg
    then and_then (set_option o arg (some value)) (λ o'. parse_args o' rest)
    else skipped

-- The size of the message where no size is given.
unfoldable pub default_size : Options → Parsed
default_size o = if o.send_size == 0 then ok (record o { send_size = length o.message }) else ok o

-- `argv` without the name of the program.
unfoldable pub validate_args : List (List ℕ) → Parsed
validate_args args = and_then (parse_args default_options args) default_size
