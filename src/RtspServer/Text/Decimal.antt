-- ===== src/RtspServer/Text/Decimal.antt =====
-- The numbers that `snprintf` prints read back by `sscanf`, for src/modules/rtsp/rtsp_server.c.
use strero.Prelude.{
  ℕ, zero, suc, ◌+◌, ◌-◌, ◌*◌, ◌/◌, ◌%◌, ◌<◌, ◌≡◌, refl, ap, ◌∙◌, true, false, some, [], ◌∷◌, ◌++◌,
  ltb, ◌==◌, Bytes, ℤ, pos, negsuc, arith, Bool-cases, inl, inr,
}
use mathlib.Core.Option
use strero.RtspServer.Text.{
  is_digit, is_space, skip_spaces, digits, scan_unsigned, negate, scan_signed, scan_int,
  decimal_loop, decimal, show_int,
}

-- A text that does not begin with a digit.
abbrev pub EndsNumber : Bytes → Type 0
EndsNumber [] = Unit
EndsNumber (c ∷ s) = is_digit c ≡ false

digits-EndsNumber : (acc : ℕ) (s : Bytes) → EndsNumber s → digits acc s ≡ (acc, s)
unfolding digits
digits-EndsNumber acc [] h = refl
digits-EndsNumber acc (c ∷ s) h = rw h refl

digits-digit :
    (acc d : ℕ) (s : Bytes) → d < 10 → digits acc ((48 + d) ∷ s) ≡ digits (acc * 10 + d) s
unfolding digits
digits-digit acc d s h =
    let digit : is_digit (48 + d) ≡ true = ground arith in
    let value : 48 + d - 48 ≡ d = omega arith in rw digit (rw value refl)

scan_unsigned-decimal_loop :
    (fuel n : ℕ) (later : Bytes)
    → n < fuel
    → scan_unsigned (decimal_loop fuel n later) ≡ some (digits n later)
unfolding decimal_loop scan_unsigned
scan_unsigned-decimal_loop zero n later h = elim h [ ]
scan_unsigned-decimal_loop (suc fuel) n later h = elim (Bool-cases (ltb n 10)) [
  | inl one ↦
      let digit : is_digit (48 + n) ≡ true = ground arith in
      let value : 0 * 10 + n ≡ n = omega arith in
      rw one (
        rw digit
          (ap some (digits-digit 0 n later (ground arith)) ∙ ap (λ v. some (digits v later)) value))
  | inr more ↦
      let value : n / 10 * 10 + n % 10 ≡ n = omega arith in
      rw more (
        scan_unsigned-decimal_loop fuel (n / 10) ((48 + n % 10) ∷ later) (ground arith)
        ∙ ap some (digits-digit (n / 10) (n % 10) later (omega arith))
        ∙ ap (λ v. some (digits v later)) value)
]

decimal_loop-append :
    (fuel n : ℕ) (later rest : Bytes)
    → decimal_loop fuel n later ++ rest ≡ decimal_loop fuel n (later ++ rest)
unfolding decimal_loop
decimal_loop-append zero n later rest = refl
decimal_loop-append (suc fuel) n later rest = elim (Bool-cases (ltb n 10)) [
  | inl one ↦ rw one refl
  | inr more ↦ rw more (decimal_loop-append fuel (n / 10) ((48 + n % 10) ∷ later) rest)
]

pub scan_unsigned-decimal :
    (n : ℕ) (rest : Bytes) → EndsNumber rest → scan_unsigned (decimal n ++ rest) ≡ some (n, rest)
unfolding decimal
scan_unsigned-decimal n rest h =
    rw (decimal_loop-append (suc n) n [] rest) (
      scan_unsigned-decimal_loop (suc n) n rest (omega arith)
      ∙ ap some (digits-EndsNumber n rest h))

-- A digit is no white space and no sign.
scan_int-digit :
    (s : Bytes) (n : ℕ) (rest : Bytes)
    → scan_unsigned s ≡ some (n, rest)
    → scan_int s ≡ some (pos n, rest)
unfolding scan_int scan_signed scan_unsigned skip_spaces
scan_int-digit [] n rest h = ground arith
scan_int-digit (c ∷ s) n rest h = elim (Bool-cases (is_digit c)) [
  | inl digit ↦
      let not_space : is_space c ≡ false = ground arith in
      let not_minus : (c == b'-') ≡ false = ground arith in
      let not_plus : (c == b'+') ≡ false = ground arith in
      rw not_space (rw not_minus (rw not_plus (ap (λ r. Option.map (λ r. (pos r.0, r.1)) r) h)))
  | inr other ↦ ground arith
]

-- `%d` reads back the number that `%d` printed, in front of a text that does not begin with a
-- digit.
pub scan_int-show_int :
    (v : ℤ) (rest : Bytes) → EndsNumber rest → scan_int (show_int v ++ rest) ≡ some (v, rest)
unfolding show_int scan_int scan_signed skip_spaces negate
scan_int-show_int (pos n) rest h = scan_int-digit _ n rest (scan_unsigned-decimal n rest h)
scan_int-show_int (negsuc n) rest h =
    ap (λ r. Option.map (λ r. (negate r.0, r.1)) r) (scan_unsigned-decimal (suc n) rest h)
