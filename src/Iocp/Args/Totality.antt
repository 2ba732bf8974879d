-- ===== src/Iocp/Args/Totality.antt =====
-- `ValidateArgs` of chapter06/iocpserver.cpp on every command line.
use network_programming_for.Base.{
  ℕ, zero, suc, ◌+◌, ◌-◌, subst, ◌≤◌, ◌<◌, ◌≡◌, ◌≢◌, refl, List, [], ◌∷◌, arith, ltb, leb, length,
  ◌⊎◌, inl, inr, Bool-cases, ◌%◌,
}
use network_programming_for.Iocp.Args.{
  Options, Parsed, ok, usage, fault, arg_at, operand, set_family, set_counts, parse_flag,
  parse_from, validate_args, default_options, ◌>>=◌,
}

arg_at_inside :
    (argv : List (List ℕ)) (i : ℕ) → i < length argv → (s : List ℕ) × (arg_at argv i ≡ ok s)
unfolding arg_at
arg_at_inside [] i h = absurd (omega arith)
arg_at_inside (x ∷ xs) zero h = (x, refl)
arg_at_inside (x ∷ xs) (suc i) h = arg_at_inside xs i (omega arith)

-- An operand that is returned stands in `argv`, and a missing one is no fault.
operand_cases :
    (argv : List (List ℕ)) (i : ℕ)
    → (operand argv i ≡ usage) ⊎ ((s : List ℕ) × (operand argv i ≡ ok s) × (i + 1 < length argv))
unfolding operand
operand_cases argv i = elim (Bool-cases (leb (length argv) (i + 1))) [
  | inl short ↦ inl (rw short)
  | inr long ↦
      let (s, e) = arg_at_inside argv (i + 1) (ground arith) in inr (s, rw (long, e), ground arith)
]

-- A flag takes its operand, or the program leaves: it never reads past the end.
abbrev Takes : List (List ℕ) → ℕ → Parsed Options → Type 0
Takes argv i (ok o) = i + 1 < length argv
Takes argv i usage = Unit {0}
Takes argv i fault = ⊥

set_family-Takes :
    (argv : List (List ℕ)) (i : ℕ) (o : Options) (s : List ℕ)
    → i + 1 < length argv
    → Takes argv i (set_family o s)
unfolding set_family
set_family-Takes argv i o s h = ground arith

set_counts-Takes :
    (argv : List (List ℕ)) (i : ℕ) (o : Options) (flag s : List ℕ)
    → i + 1 < length argv
    → Takes argv i (set_counts o flag s)
unfolding set_counts
set_counts-Takes argv i o flag s h = ground arith

bind-Takes :
    (argv : List (List ℕ)) (i : ℕ) (f : List ℕ → Parsed Options)
    → ((s : List ℕ) → i + 1 < length argv → Takes argv i (f s))
    → Takes argv i (operand argv i >>= f)
bind-Takes argv i f k = elim (operand_cases argv i) [
  | inl e ↦ rw e tt
  | inr (s, e, h) ↦ rw e (k s h)
]

parse_flag-Takes :
    (argv : List (List ℕ)) (i : ℕ) (o : Options) (flag : List ℕ)
    → Takes argv i (parse_flag argv i o flag)
unfolding parse_flag
parse_flag-Takes argv i o flag = ground (
  arith,
  bind-Takes argv i (set_family o) (set_family-Takes argv i o),
  bind-Takes argv i (set_counts o flag) (set_counts-Takes argv i o flag),
)

-- The loop from `i`: no fault, and a result only where flags and operands pair off.
abbrev Ends : List (List ℕ) → ℕ → Parsed Options → Type 0
Ends argv i (ok o) = (length argv < i) ⊎ ((length argv - i) % 2 ≡ 0)
Ends argv i usage = Unit {0}
Ends argv i fault = ⊥

resume-Ends :
    (fuel : ℕ) (argv : List (List ℕ)) (i : ℕ) (r : Parsed Options)
    → ((o : Options) → Ends argv (i + 2) (parse_from fuel argv (i + 2) o))
    → Takes argv i r
    → Ends argv i (r >>= parse_from fuel argv (i + 2))
resume-Ends fuel argv i usage ih t = tt
resume-Ends fuel argv i fault ih t = t
resume-Ends fuel argv i (ok o) ih t = widen (parse_from fuel argv (i + 2) o) (ih o)
  where
    widen : (r : Parsed Options) → Ends argv (i + 2) r → Ends argv i r
    widen (ok o') e = inr (omega arith)
    widen usage e = tt
    widen fault e = e

parse_from-Ends :
    (fuel : ℕ) (argv : List (List ℕ)) (i : ℕ) (o : Options)
    → length argv ≤ i + fuel
    → Ends argv i (parse_from fuel argv i o)
unfolding parse_from
parse_from-Ends zero argv i o h = ground arith
parse_from-Ends (suc fuel) argv i o h = elim (Bool-cases (ltb i (length argv))) [
  | inr done ↦ rw (done, parse_from) (ground arith)
  | inl more ↦
      let (flag, e) = arg_at_inside argv i (ground arith) in
      rw (more, parse_from, e)
        (resume-Ends fuel argv i (parse_flag argv i o flag)
          (λ o'. parse_from-Ends fuel argv (i + 2) o' (omega arith))
          (parse_flag-Takes argv i o flag))
]

-- For no command line does ValidateArgs read past the end of its arguments.
pub validate_args-ne-fault : (argv : List (List ℕ)) → validate_args argv ≢ fault
unfolding validate_args
validate_args-ne-fault argv e =
    subst (Ends argv 1) e (parse_from-Ends (length argv) argv 1 default_options (omega arith))

-- If ValidateArgs accepts a command line, it is empty, or behind the program name stands an even
-- number of arguments: flags and operands in pairs.
pub validate_args_pairs :
    (argv : List (List ℕ)) (o : Options)
    → validate_args argv ≡ ok o
    → (length argv ≡ 0) ⊎ ((length argv - 1) % 2 ≡ 0)
unfolding validate_args
validate_args_pairs argv o e =
    let ends : Ends argv 1 (ok o) =
      subst (Ends argv 1) e (parse_from-Ends (length argv) argv 1 default_options (omega arith)) in
    ground arith
