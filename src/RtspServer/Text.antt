-- ===== src/RtspServer/Text.antt =====
-- The conversions of `sscanf` and `snprintf` that src/modules/rtsp/rtsp_server.c uses: `%d`, `%s`
-- with a width, `%*[^c]`, and literal text. (A number that does not fit an `int` is not the
-- library's to read: the text of a request is the peer's, and the model reads it unbounded.)
pub mod Decimal
use mathlib.Core.Option
use strero.Prelude.{
  ℕ, zero, suc, ◌+◌, ◌-◌, ◌*◌, ◌/◌, ◌%◌, ◌≤◌, ◌<◌, Bool, true, false, not, ◌&&◌, ◌||◌, Option, none,
  some, List, [], ◌∷◌, ◌++◌, leb, ltb, ◌==◌, if◌then◌else◌, length, take, drop, Bytes, codes,
  has_prefix, ℤ, pos, negsuc,
}

-- isspace
abbrev pub is_space : ℕ → Bool
is_space c = c == 32 || (leb 9 c && leb c 13)

abbrev pub is_digit : ℕ → Bool
is_digit c = leb 48 c && leb c 57

unfoldable pub skip_spaces : Bytes → Bytes
skip_spaces [] = []
skip_spaces (c ∷ s) = let rest = skip_spaces s in if is_space c then rest else c ∷ s

-- At most `width` characters that are no white space, and what follows them.
unfoldable pub word : ℕ → Bytes → Bytes × Bytes
word zero s = ([], s)
word (suc width) [] = ([], [])
word (suc width) (c ∷ s) =
    let (front, back) = word width s in if is_space c then ([], c ∷ s) else (c ∷ front, back)

-- `%<width>s`
unfoldable pub scan_word : ℕ → Bytes → Option (Bytes × Bytes)
scan_word width s =
    let (front, back) = word width (skip_spaces s) in
    if length front == 0 then none else some (front, back)

-- The digits on from a position, as a number that continues `acc`.
unfoldable pub digits : ℕ → Bytes → ℕ × Bytes
digits acc [] = (acc, [])
digits acc (c ∷ s) =
    let more = digits (acc * 10 + (c - 48)) s in if is_digit c then more else (acc, c ∷ s)

unfoldable pub scan_unsigned : Bytes → Option (ℕ × Bytes)
scan_unsigned [] = none
scan_unsigned (c ∷ s) = if is_digit c then some (digits 0 (c ∷ s)) else none

unfoldable pub negate : ℕ → ℤ
negate zero = pos 0
negate (suc n) = negsuc n

-- `%d`, behind white space
unfoldable pub scan_signed : Bytes → Option (ℤ × Bytes)
scan_signed [] = none
scan_signed (c ∷ s) =
    let signed = scan_unsigned s in
    let plain = scan_unsigned (c ∷ s) in
    if c == b'-'
    then Option.map (λ r. (negate r.0, r.1)) signed
    else if c == b'+'
    then Option.map (λ r. (pos r.0, r.1)) signed
    else Option.map (λ r. (pos r.0, r.1)) plain

unfoldable pub scan_int : Bytes → Option (ℤ × Bytes)
scan_int s = scan_signed (skip_spaces s)

-- Literal text.
unfoldable pub scan_text : Bytes → Bytes → Option Bytes
scan_text text s = if has_prefix text s then some (drop (length text) s) else none

-- What is on from the first `stop`.
unfoldable pub from : ℕ → Bytes → Bytes
from stop [] = []
from stop (c ∷ s) = let rest = from stop s in if c == stop then c ∷ s else rest

-- `%*[^c]c`: one character or more that are not `c`, then `c`.
unfoldable pub scan_past : ℕ → Bytes → Option Bytes
scan_past stop [] = none
scan_past stop (c ∷ s) =
    if c == stop then none else elim (from stop s) [ [] ↦ none | ◌∷◌ _ rest ↦ some rest ]

-- `%d` of `snprintf`, by the digits of `n`, at most `fuel` of them.
unfoldable pub decimal_loop : ℕ → ℕ → Bytes → Bytes
decimal_loop zero n later = later
decimal_loop (suc fuel) n later =
    let more = decimal_loop fuel (n / 10) ((48 + n % 10) ∷ later) in
    if ltb n 10 then (48 + n) ∷ later else more

unfoldable pub decimal : ℕ → Bytes
decimal n = decimal_loop (suc n) n []

unfoldable pub show_int : ℤ → Bytes
show_int (pos n) = decimal n
show_int (negsuc n) = b'-' ∷ decimal (suc n)
