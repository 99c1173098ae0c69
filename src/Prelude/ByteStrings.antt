-- ===== src/Prelude/ByteStrings.antt =====
-- Bytes and C strings: lists of numbers, a string without its terminating zero.
use Prim.Native.Nat.{ℕ}
use Prim.Native.Char.{code}
use Prim.Native.String.{String}
use mathlib.Core.Path.{◌≡◌, refl}
use mathlib.Core.Logic.{◌↔◌}
use mathlib.Core.Bool.{Bool, true, false, ◌&&◌}
use mathlib.Core.List.{List, [], ◌∷◌, ◌++◌}
use mathlib.Core.Option
use mathlib.Core.Option.{Option, none, some}
use native.Mathlib.Omega.{arith}
use strero.Prelude.Tests.{◌==◌, ==_self, if◌then◌else◌}

abbrev pub Bytes : Type 0
Bytes = List ℕ

-- The code points of a text, which are its bytes if it is ASCII.
abbrev pub codes : String → Bytes
codes String.[] = []
codes (String.◌∷◌ c s) = code c ∷ codes s

-- strcmp(a, b) == 0
unfoldable pub str_eq : Bytes → Bytes → Bool
str_eq [] [] = true
str_eq [] (_ ∷ _) = false
str_eq (_ ∷ _) [] = false
str_eq (x ∷ xs) (y ∷ ys) = x == y && str_eq xs ys

pub str_eq_iff : (a b : Bytes) → (str_eq a b ≡ true) ↔ (a ≡ b)
unfolding str_eq
str_eq_iff [] [] = ground arith
str_eq_iff [] (y ∷ ys) = ground arith
str_eq_iff (x ∷ xs) [] = ground arith
str_eq_iff (x ∷ xs) (y ∷ ys) = ground (arith, str_eq_iff xs ys)

pub str_eq_refl : (a : Bytes) → str_eq a a ≡ true
str_eq_refl a = (str_eq_iff a a).1 refl

-- strchr(s, c): what stands before the first `c`, and the string from that `c` on.
unfoldable pub find_char : ℕ → Bytes → Option (Bytes × Bytes)
find_char c [] = none
find_char c (x ∷ xs) =
    let rest = find_char c xs in
    if x == c then some ([], x ∷ xs) else Option.map (λ r. (x ∷ r.0, r.1)) rest

-- strncmp(s, prefix, strlen(prefix)) == 0
unfoldable pub has_prefix : Bytes → Bytes → Bool
has_prefix [] s = true
has_prefix (p ∷ ps) [] = false
has_prefix (p ∷ ps) (x ∷ xs) = p == x && has_prefix ps xs

-- A byte does not stand in a string.
abbrev pub Lacks : ℕ → Bytes → Type 0
Lacks c [] = Unit
Lacks c (x ∷ xs) = ((x == c) ≡ false) × Lacks c xs

pub find_char-append :
    (c : ℕ) (before after : Bytes)
    → Lacks c before
    → find_char c (before ++ (c ∷ after)) ≡ some (before, c ∷ after)
unfolding find_char
find_char-append c [] after h = rw (==_self c)
find_char-append c (x ∷ xs) after h = rw (h.0, find_char-append c xs after h.1)

pub find_char-Lacks : (c : ℕ) (s : Bytes) → Lacks c s → find_char c s ≡ none
unfolding find_char
find_char-Lacks c [] h = refl
find_char-Lacks c (x ∷ xs) h = rw (h.0, find_char-Lacks c xs h.1)

pub has_prefix-append : (p s : Bytes) → has_prefix p (p ++ s) ≡ true
unfolding has_prefix
has_prefix-append [] s = refl
has_prefix-append (x ∷ p) s = rw (==_self x) (has_prefix-append p s)

pub has_prefix_split : (p s : Bytes) → has_prefix p s ≡ true → (rest : Bytes) × (s ≡ p ++ rest)
unfolding has_prefix
has_prefix_split [] s h = (s, refl)
has_prefix_split (x ∷ p) [] h = cc
has_prefix_split (x ∷ p) (y ∷ s) h =
    let (rest, e) = has_prefix_split p s (ground arith) in (rest, ground (arith, e))

pub find_char_skip :
    (c : ℕ) (xs ys : Bytes)
    → Lacks c xs
    → find_char c (xs ++ ys) ≡ Option.map (λ r. (xs ++ r.0, r.1)) (find_char c ys)
unfolding find_char
find_char_skip c [] ys h = ground arith
find_char_skip c (x ∷ xs) ys h = ground (arith, find_char_skip c xs ys)

pub Lacks-append : (c : ℕ) (xs ys : Bytes) → Lacks c xs → Lacks c ys → Lacks c (xs ++ ys)
Lacks-append c [] ys hx hy = hy
Lacks-append c (x ∷ xs) ys hx hy = (hx.0, Lacks-append c xs ys hx.1 hy)

-- strstr(s, needle): what stands before the first occurrence, and the string from there on.
unfoldable pub find_str : Bytes → Bytes → Option (Bytes × Bytes)
find_str needle [] = if has_prefix needle [] then some ([], []) else none
find_str needle (x ∷ xs) =
    let rest = find_str needle xs in
    if has_prefix needle (x ∷ xs) then some ([], x ∷ xs) else Option.map (λ r. (x ∷ r.0, r.1)) rest

abbrev pub occurs : Bytes → Bytes → Bool
occurs needle s = elim (find_str needle s) [ none ↦ false | some _ ↦ true ]

-- The C string in a buffer of bytes: what stands before the first zero.
unfoldable pub c_string : Bytes → Bytes
c_string [] = []
c_string (x ∷ xs) = let rest = c_string xs in if x == 0 then [] else x ∷ rest
