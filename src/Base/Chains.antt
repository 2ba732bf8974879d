-- ===== src/Base/Chains.antt =====
-- Lists that are linked through a `next` field, in a heap that is a function of the address.
use Prim.Native.Nat.{ℕ}
use mathlib.Core.Path.{◌≡◌, sym}
use mathlib.Core.Logic.{◌≢◌}
use mathlib.Core.List.{List, [], ◌∷◌, ◌++◌}
use native.Mathlib.Omega.{arith}
use network_programming_for.Base.Tests.{◌==◌, if◌then◌else◌}
use network_programming_for.Base.Lists.{last_or}

-- The address that no object has.
abbrev pub null : ℕ
null = 0

abbrev pub update {ℓ} : {A : Type ℓ} → (ℕ → A) → ℕ → A → ℕ → A
update f p v q = if p == q then v else f q

-- `x` is not among the entries.
abbrev pub NotIn : ℕ → List ℕ → Type 0
NotIn x [] = Unit {0}
NotIn x (y ∷ ys) = (x ≢ y) × NotIn x ys

abbrev pub IsDistinct : List ℕ → Type 0
IsDistinct [] = Unit {0}
IsDistinct (x ∷ xs) = NotIn x xs × IsDistinct xs

-- From `p` along `next` stand exactly the objects of the list, and then a null pointer.
abbrev pub Chain : (ℕ → ℕ) → ℕ → List ℕ → Type 0
Chain next p [] = p ≡ null
Chain next p (x ∷ xs) = (p ≡ x) × (x ≢ null) × Chain next (next x) xs

-- What is written elsewhere leaves the chain alone.
pub Chain-agree :
    (f g : ℕ → ℕ) (y p : ℕ) (xs : List ℕ)
    → NotIn y xs
    → ((q : ℕ) → y ≢ q → g q ≡ f q)
    → Chain f p xs
    → Chain g p xs
Chain-agree f g y p [] out same c = c
Chain-agree f g y p (x ∷ xs) out same c =
    (c.0, c.1, Chain-agree f g y (g x) xs out.1 same (moved (same x out.0)))
  where
    moved : g x ≡ f x → Chain f (g x) xs
    moved e = rw e c.2

pub NotIn-append : (x y : ℕ) (xs : List ℕ) → NotIn x xs → x ≢ y → NotIn x (xs ++ y ∷ [])
NotIn-append x y [] h ne = (ne, tt)
NotIn-append x y (z ∷ xs) h ne = (h.0, NotIn-append x y xs h.1 ne)

pub IsDistinct-append :
    (y : ℕ) (xs : List ℕ) → NotIn y xs → IsDistinct xs → IsDistinct (xs ++ y ∷ [])
IsDistinct-append y [] h d = (tt, tt)
IsDistinct-append y (x ∷ xs) h d =
    (NotIn-append x y xs d.0 (λ e. h.0 (flip e)), IsDistinct-append y xs h.1 d.1)
  where
    flip : x ≡ y → y ≡ x
    flip e = omega arith

pub NotIn-last : (x y : ℕ) (ys : List ℕ) → NotIn x (y ∷ ys) → x ≢ last_or y ys
NotIn-last x y [] h = h.0
NotIn-last x y (z ∷ ys) h = NotIn-last x z ys h.1

-- A new object behind the last one.
pub Chain-append :
    (f g : ℕ → ℕ) (p x : ℕ) (xs : List ℕ) (y : ℕ)
    → ((q : ℕ) → q ≢ last_or x xs → q ≢ y → g q ≡ f q)
    → g (last_or x xs) ≡ y
    → g y ≡ null
    → y ≢ null
    → NotIn y (x ∷ xs)
    → IsDistinct (x ∷ xs)
    → Chain f p (x ∷ xs)
    → Chain g p (x ∷ xs ++ y ∷ [])
Chain-append f g p x [] y same ends stops live out d c = (c.0, c.1, (ends, live, stops))
Chain-append f g p x (z ∷ xs) y same ends stops live out d c = (
  c.0,
  c.1,
  Chain-append f g (g x) z xs y same ends stops live out.1 d.1
      (rw (same x (NotIn-last x z xs d.0) (λ e. out.0 (sym e))) c.2),
)

-- The last object of a chain is none that a null pointer could stand for.
pub Chain-last : (f : ℕ → ℕ) (p x : ℕ) (xs : List ℕ) → Chain f p (x ∷ xs) → last_or x xs ≢ null
Chain-last f p x [] c = c.1
Chain-last f p x (y ∷ xs) c = Chain-last f (f x) y xs c.2

pub NotIn-front : (x : ℕ) (xs ys : List ℕ) → NotIn x (xs ++ ys) → NotIn x xs
NotIn-front x [] ys h = tt
NotIn-front x (y ∷ xs) ys h = (h.0, NotIn-front x xs ys h.1)

pub NotIn-middle : (x y : ℕ) (xs ys : List ℕ) → NotIn x (xs ++ y ∷ ys) → x ≢ y
NotIn-middle x y [] ys h = h.0
NotIn-middle x y (z ∷ xs) ys h = NotIn-middle x y xs ys h.1

NotIn-drop : (x y : ℕ) (xs ys : List ℕ) → NotIn x (xs ++ y ∷ ys) → NotIn x (xs ++ ys)
NotIn-drop x y [] ys h = h.1
NotIn-drop x y (z ∷ xs) ys h = (h.0, NotIn-drop x y xs ys h.1)

pub IsDistinct-drop : (y : ℕ) (xs ys : List ℕ) → IsDistinct (xs ++ y ∷ ys) → IsDistinct (xs ++ ys)
IsDistinct-drop y [] ys d = d.1
IsDistinct-drop y (x ∷ xs) ys d = (NotIn-drop x y xs ys d.0, IsDistinct-drop y xs ys d.1)

-- An object in the middle is taken out by a write at the one before it.
pub Chain-drop :
    (f g : ℕ → ℕ) (p x : ℕ) (xs : List ℕ) (y : ℕ) (ys : List ℕ)
    → ((q : ℕ) → q ≢ last_or x xs → g q ≡ f q)
    → g (last_or x xs) ≡ f y
    → IsDistinct (x ∷ xs ++ y ∷ ys)
    → Chain f p (x ∷ xs ++ y ∷ ys)
    → Chain g p (x ∷ xs ++ ys)
Chain-drop f g p x [] y ys same skips d c =
    (c.0, c.1, rw skips (Chain-agree f g x (f y) ys d.0.1 (λ q n. same q (λ e. n (sym e))) c.2.2))
Chain-drop f g p x (z ∷ xs) y ys same skips d c = (
  c.0,
  c.1,
  Chain-drop f g (g x) z xs y ys same skips d.1
      (rw (same x (NotIn-last x z xs (NotIn-front x (z ∷ xs) (y ∷ ys) d.0))) c.2),
)

pub Chain-last_front :
    (f : ℕ → ℕ) (p x : ℕ) (xs ys : List ℕ) → Chain f p (x ∷ xs ++ ys) → last_or x xs ≢ null
Chain-last_front f p x [] ys c = c.1
Chain-last_front f p x (y ∷ xs) ys c = Chain-last_front f (f x) y xs ys c.2
