-- ===== src/RawUdp/Args/Totality.antt =====
-- Where `ValidateArgs` of chapter11/iphdrinc/rawudp.cpp reads past the end of its arguments.
use network_programming_for.Base.{
  ℕ, ◌≡◌, refl, ◌≢◌, sym, ◌∙◌, Bool, true, false, List, [], ◌∷◌, ◌++◌, none, some, ◌==◌, ◌&&◌,
  char_at, tolower, Bool-cases, inl, inr, arith,
}
use network_programming_for.RawUdp.Args.{
  Options, Parsed, ok, usage, fault, default_options, set_family, set_source, set_destination,
  set_value, set_option, is_flag, and_then, parse_args, default_size, validate_args,
}

-- The last argument is a flag for the address family.
abbrev pub ends_in_family : List (List ℕ) → Bool
ends_in_family [] = false
ends_in_family (arg ∷ []) = is_flag arg && tolower (char_at arg 1) == b'a'
ends_in_family (arg ∷ value ∷ rest) = ends_in_family (value ∷ rest)

set_option-none :
    (o : Options) (flag : List ℕ)
    → (tolower (char_at flag 1) == b'a') ≡ false
    → set_option o flag none ≢ fault
unfolding set_option set_source set_destination set_value
set_option-none o flag h = rw h (ground arith)

set_option-some : (o : Options) (flag value : List ℕ) → set_option o flag (some value) ≢ fault
unfolding set_option set_family set_source set_destination set_value
set_option-some o flag value = ground arith

and_then-ne-fault :
    (p : Parsed) (f : Options → Parsed)
    → p ≢ fault
    → ((o : Options) → f o ≢ fault)
    → and_then p f ≢ fault
unfolding and_then
and_then-ne-fault (ok o) f hp hf = hf o
and_then-ne-fault usage f hp hf = hp
and_then-ne-fault fault f hp hf = hp

ok-ne-fault : (o : Options) → ok o ≢ fault
ok-ne-fault o = ground arith

default_size-ne-fault : (o : Options) → default_size o ≢ fault
unfolding default_size
default_size-ne-fault o = ground arith

parse_args-ne-fault :
    (args : List (List ℕ)) (o : Options) → ends_in_family args ≡ false → parse_args o args ≢ fault
unfolding parse_args
parse_args-ne-fault [] o h = ok-ne-fault o
parse_args-ne-fault (arg ∷ []) o h = elim (Bool-cases (is_flag arg)) [
  | inl flag ↦ rw flag (set_option-none o arg (sym (rw flag refl) ∙ h))
  | inr plain ↦ rw plain (ok-ne-fault o)
]
parse_args-ne-fault (arg ∷ value ∷ []) o h = elim (Bool-cases (is_flag arg)) [
  | inl flag ↦ rw flag (
      and_then-ne-fault (set_option o arg (some value)) (λ o'. parse_args o' [])
        (set_option-some o arg value) (λ o'. ok-ne-fault o'))
  | inr plain ↦ rw plain (parse_args-ne-fault (value ∷ []) o h)
]
parse_args-ne-fault (arg ∷ value ∷ next ∷ rest) o h = elim (Bool-cases (is_flag arg)) [
  | inl flag ↦ rw flag (
      and_then-ne-fault (set_option o arg (some value)) (λ o'. parse_args o' (next ∷ rest))
        (set_option-some o arg value) (λ o'. parse_args-ne-fault (next ∷ rest) o' h))
  | inr plain ↦ rw plain (parse_args-ne-fault (value ∷ next ∷ rest) o h)
]

-- ValidateArgs reads through no argument that is not there, if the last argument of the command
-- line is not a flag whose letter is a or A.
pub validate_args-no_fault :
    (args : List (List ℕ)) → ends_in_family args ≡ false → validate_args args ≢ fault
unfolding validate_args
validate_args-no_fault args h =
    and_then-ne-fault (parse_args default_options args) default_size
      (parse_args-ne-fault args default_options h) default_size-ne-fault

-- Flags and values in turn.
abbrev pub IsPaired : List (List ℕ) → Type 0
IsPaired [] = Unit {0}
IsPaired (arg ∷ []) = ⊥
IsPaired (arg ∷ value ∷ rest) = (is_flag arg ≡ true) × IsPaired rest

-- Both steps of a chain that ends well have ended well.
and_then-ok :
    (p : Parsed) (f : Options → Parsed) (o : Options)
    → and_then p f ≡ ok o
    → (o₁ : Options) × (p ≡ ok o₁) × (f o₁ ≡ ok o)
unfolding and_then
and_then-ok (ok o₁) f o e = (o₁, refl, e)
and_then-ok usage f o e = absurd (ground (arith, e))
and_then-ok fault f o e = absurd (ground (arith, e))

parse_args-family :
    (args : List (List ℕ)) (flag : List ℕ) (o o' : Options)
    → IsPaired args
    → parse_args o args ≡ ok o'
    → is_flag flag ≡ true
    → (tolower (char_at flag 1) == b'a') ≡ true
    → parse_args o (args ++ flag ∷ []) ≡ fault
unfolding parse_args set_option set_family and_then
parse_args-family [] flag o o' paired e f a = rw (f, a) refl
parse_args-family (arg ∷ []) flag o o' paired e f a = absurd paired
parse_args-family (arg ∷ value ∷ rest) flag o o' paired e f a =
    let chain = and_then (set_option o arg (some value)) (λ o₁. parse_args o₁ rest) in
    let ran : chain ≡ ok o' = sym (rw paired.0 refl) ∙ e in
    let (o₁, set, parsed) =
      and_then-ok (set_option o arg (some value)) (λ o₁. parse_args o₁ rest) o' ran in
    rw (paired.0, set) (parse_args-family rest flag o₁ o' paired.1 parsed f a)

-- If ValidateArgs accepts a command line of flags and values in turn, then on the same command
-- line with a flag whose letter is a or A behind it, it reads through the argument behind that
-- flag, which is not there.
pub validate_args-family :
    (args : List (List ℕ)) (flag : List ℕ) (o : Options)
    → IsPaired args
    → validate_args args ≡ ok o
    → is_flag flag ≡ true
    → (tolower (char_at flag 1) == b'a') ≡ true
    → validate_args (args ++ flag ∷ []) ≡ fault
unfolding validate_args and_then
validate_args-family args flag o paired e f a =
    let (o₁, parsed, _) = and_then-ok (parse_args default_options args) default_size o e in
    rw (parse_args-family args flag default_options o₁ paired parsed f a) refl
