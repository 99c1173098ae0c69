-- ===== src/Prelude/Addresses.antt =====
-- Lists of addresses, and what it means that none stands twice.
use Prim.Native.Nat.{ℕ}
use mathlib.Core.Path.{◌≡◌, refl, ◌∙◌}
use mathlib.Core.Bool.{Bool, false, ◌||◌}
use mathlib.Core.List.{List, [], ◌∷◌, ◌++◌, reverse, reverse-cons, reverse-append}
use native.Mathlib.Omega.{arith}
use strero.Prelude.Tests.{◌==◌}

abbrev pub contains : ℕ → List ℕ → Bool
contains p [] = false
contains p (q ∷ qs) = p == q || contains p qs

abbrev pub Distinct : List ℕ → Type 0
Distinct [] = Unit
Distinct (p ∷ ps) = (contains p ps ≡ false) × Distinct ps

pub contains-append :
    (p : ℕ) (xs ys : List ℕ) → contains p (xs ++ ys) ≡ (contains p xs || contains p ys)
contains-append p [] ys = refl
contains-append p (x ∷ xs) ys = ground (arith, contains-append p xs ys)

pub contains-reverse : (p : ℕ) (xs : List ℕ) → contains p (reverse xs) ≡ contains p xs
contains-reverse p [] = refl
contains-reverse p (x ∷ xs) = ground (
  arith,
  reverse-append (x ∷ []) xs,
  contains-append p (reverse xs) (x ∷ []),
  contains-reverse p xs,
)

pub Distinct-snoc :
    (xs : List ℕ) (p : ℕ) → Distinct xs → contains p xs ≡ false → Distinct (xs ++ p ∷ [])
Distinct-snoc [] p d h = (refl, tt)
Distinct-snoc (x ∷ xs) p d h =
    (ground (arith, contains-append x xs (p ∷ [])), Distinct-snoc xs p d.1 (ground arith))

pub Distinct-reverse : (xs : List ℕ) → Distinct xs → Distinct (reverse xs)
Distinct-reverse [] d = tt
Distinct-reverse (x ∷ xs) d =
    rw reverse-cons
      (Distinct-snoc (reverse xs) x (Distinct-reverse xs d.1) (contains-reverse x xs ∙ d.0))
