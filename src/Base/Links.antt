-- ===== src/Base/Links.antt =====
-- Lists that are linked back through a `prev` field too, and what holds of every entry.
use Prim.Native.Nat.{ℕ, ◌<◌}
use native.Mathlib.Omega.{arith}
use mathlib.Core.Path.{◌≡◌, ◌∙◌, sym, refl}
use mathlib.Core.Logic.{◌≢◌}
use mathlib.Core.List.{List, [], ◌∷◌, ◌++◌, append_assoc}
use network_programming_for.Base.Lists.{last_or}
use network_programming_for.Base.Chains.{NotIn, IsDistinct, NotIn-middle, Chain, null}

-- Every entry has the property.
abbrev pub All {κ} : (ℕ → Type κ) → List ℕ → Type κ
All P [] = Unit
All P (x ∷ xs) = P x × All P xs

pub All-append {κ} : (P : ℕ → Type κ) (xs ys : List ℕ) → All P xs → All P ys → All P (xs ++ ys)
All-append P [] ys h k = k
All-append P (x ∷ xs) ys h k = (h.0, All-append P xs ys h.1 k)

pub All-front {κ} : (P : ℕ → Type κ) (xs ys : List ℕ) → All P (xs ++ ys) → All P xs
All-front P [] ys h = tt
All-front P (x ∷ xs) ys h = (h.0, All-front P xs ys h.1)

pub All-back {κ} : (P : ℕ → Type κ) (xs ys : List ℕ) → All P (xs ++ ys) → All P ys
All-back P [] ys h = h
All-back P (x ∷ xs) ys h = All-back P xs ys h.1

-- What holds of the other entries may be shown with the hypothesis that they are others.
pub All-map {κ μ} :
    {P : ℕ → Type κ} {Q : ℕ → Type μ} (k : ℕ) (xs : List ℕ)
    → NotIn k xs
    → ((x : ℕ) → k ≢ x → P x → Q x)
    → All P xs
    → All Q xs
All-map k [] out f h = tt
All-map k (x ∷ xs) out f h = (f x out.0 h.0, All-map k xs out.1 f h.1)

-- Back along `prev`: each entry has the one before it, and the first one `q`.
abbrev pub Back : (ℕ → ℕ) → ℕ → List ℕ → Type 0
Back prev q [] = Unit {0}
Back prev q (x ∷ xs) = (prev x ≡ q) × Back prev x xs

pub Back-agree :
    (f g : ℕ → ℕ) (y q : ℕ) (xs : List ℕ)
    → NotIn y xs
    → ((x : ℕ) → y ≢ x → g x ≡ f x)
    → Back f q xs
    → Back g q xs
Back-agree f g y q [] out same b = tt
Back-agree f g y q (x ∷ xs) out same b = (same x out.0 ∙ b.0, Back-agree f g y x xs out.1 same b.1)

pub Back-append :
    (f g : ℕ → ℕ) (q : ℕ) (xs : List ℕ) (y : ℕ)
    → ((x : ℕ) → y ≢ x → g x ≡ f x)
    → g y ≡ last_or q xs
    → NotIn y xs
    → Back f q xs
    → Back g q (xs ++ y ∷ [])
Back-append f g q [] y same ends out b = (ends, tt)
Back-append f g q (x ∷ xs) y same ends out b =
    (same x out.0 ∙ b.0, Back-append f g x xs y same ends out.1 b.1)

pub Back-last :
    (f : ℕ → ℕ) (q : ℕ) (xs : List ℕ) (y : ℕ) (ys : List ℕ)
    → Back f q (xs ++ y ∷ ys)
    → f y ≡ last_or q xs
Back-last f q [] y ys b = b.0
Back-last f q (x ∷ xs) y ys b = Back-last f x xs y ys b.1

-- An entry is taken out by a write at the one behind it.
pub Back-drop_last :
    (f g : ℕ → ℕ) (q : ℕ) (xs : List ℕ) (y : ℕ)
    → ((x : ℕ) → g x ≡ f x)
    → Back f q (xs ++ y ∷ [])
    → Back g q (xs ++ [])
Back-drop_last f g q [] y same b = tt
Back-drop_last f g q (x ∷ xs) y same b = (same x ∙ b.0, Back-drop_last f g x xs y same b.1)

pub Back-drop :
    (f g : ℕ → ℕ) (q : ℕ) (xs : List ℕ) (y z : ℕ) (ys : List ℕ)
    → ((x : ℕ) → z ≢ x → g x ≡ f x)
    → g z ≡ f y
    → IsDistinct (xs ++ y ∷ z ∷ ys)
    → Back f q (xs ++ y ∷ z ∷ ys)
    → Back g q (xs ++ z ∷ ys)
Back-drop f g q [] y z ys same skips d b = (skips ∙ b.0, Back-agree f g z z ys d.1.0 same b.1.1)
Back-drop f g q (x ∷ xs) y z ys same skips d b = (
  same x (λ e. NotIn-middle x z (xs ++ y ∷ []) ys (regroup d.0) (sym e)) ∙ b.0,
  Back-drop f g x xs y z ys same skips d.1 b.1,
)
  where
    regroup : NotIn x (xs ++ y ∷ z ∷ ys) → NotIn x ((xs ++ y ∷ []) ++ z ∷ ys)
    regroup h = rw append_assoc h

pub Chain-at :
    (f : ℕ → ℕ) (p : ℕ) (xs : List ℕ) (y : ℕ) (ys : List ℕ)
    → Chain f p (xs ++ y ∷ ys)
    → (y ≢ null) × Chain f (f y) ys
Chain-at f p [] y ys c = (c.1, c.2)
Chain-at f p (x ∷ xs) y ys c = Chain-at f (f x) xs y ys c.2

pub last_or-middle :
    (d : ℕ) (xs : List ℕ) (z : ℕ) (ys : List ℕ) → last_or d (xs ++ z ∷ ys) ≡ last_or z ys
last_or-middle d [] z ys = refl
last_or-middle d (x ∷ xs) z ys = last_or-middle x xs z ys

pub IsDistinct-back : (xs ys : List ℕ) → IsDistinct (xs ++ ys) → IsDistinct ys
IsDistinct-back [] ys d = d
IsDistinct-back (x ∷ xs) ys d = IsDistinct-back xs ys d.1

-- The entry between two parts of a list stands in neither.
pub IsDistinct-between :
    (xs : List ℕ) (y : ℕ) (ys : List ℕ) → IsDistinct (xs ++ y ∷ ys) → NotIn y (xs ++ ys)
IsDistinct-between [] y ys d = d.0
IsDistinct-between (x ∷ xs) y ys d =
    (λ e. NotIn-middle x y xs ys d.0 (sym e), IsDistinct-between xs y ys d.1)

pub All-mono {κ μ} :
    {P : ℕ → Type κ} {Q : ℕ → Type μ} (xs : List ℕ) → ((x : ℕ) → P x → Q x) → All P xs → All Q xs
All-mono [] f h = tt
All-mono (x ∷ xs) f h = (f x h.0, All-mono xs f h.1)

-- A number above all entries is none of them.
pub NotIn-above : (n : ℕ) (xs : List ℕ) → All (λ x. x < n) xs → NotIn n xs
NotIn-above n [] h = tt
NotIn-above n (x ∷ xs) h = (λ e. let l = h.0 in absurd (omega arith), NotIn-above n xs h.1)
