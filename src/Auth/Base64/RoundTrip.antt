-- ===== src/Auth/Base64/RoundTrip.antt =====
-- Decoding undoes encoding, for `auth_base64_encode` and `auth_base64_decode` of src/auth_utils.c.
use strero.Prelude.{
  ℕ, zero, suc, ◌+◌, ◌*◌, ◌/◌, ◌%◌, ◌^◌, ◌<◌, ◌≡◌, refl, Bool, true, false, not, ◌&&◌, none, some,
  [], ◌∷◌, ◌==◌, length, get_or, Bytes, All, arith, if◌then◌else◌, Bool-cases, inl, inr, ap,
}
use strero.Auth.Base64.{
  base64_chars, base64_char, pad, triple, auth_base64_encode, index_of, sextet, decoded,
  decode_groups, auth_base64_decode,
}

-- A test that holds of every index under a bound.
every : (ℕ → Bool) → ℕ → Bool
every test zero = true
every test (suc bound) = if test bound then every test bound else false

every-index :
    (test : ℕ → Bool) (bound index : ℕ)
    → index < bound
    → every test bound ≡ true
    → test index ≡ true
unfolding every
every-index test zero index under held = elim under [ ]
every-index test (suc bound) index under held = elim (Bool-cases (index == bound)) [
  | inl top ↦ ground (arith, ap test {x = index} {y = bound})
  | inr lower ↦ every-index test bound index (ground arith) (ground arith)
]

-- A table entry is no `=`, and its index is found again.
abbrev is_exact : ℕ → Bool
is_exact n =
    not (get_or base64_chars n 0 == pad)
    && (elim (index_of (get_or base64_chars n 0) base64_chars 0) [ none ↦ false | some k ↦ k == n ])

table_is_exact : every is_exact 64 ≡ true
unfolding every index_of
table_is_exact = refl

base64_char_ne : (n : ℕ) → (base64_char n == pad) ≡ false
unfolding base64_char
base64_char_ne n = ground (arith, every-index is_exact 64 (n % 64) (omega arith) table_is_exact)

-- The sextet of an encoded character is the low six bits that it stands for.
pub sextet-base64_char : (n : ℕ) → sextet (base64_char n) ≡ some (n % 64)
unfolding base64_char sextet
sextet-base64_char n = ground (arith, every-index is_exact 64 (n % 64) (omega arith) table_is_exact)

sextet-pad : sextet pad ≡ some 0
unfolding sextet
sextet-pad = refl

abbrev pub IsByte : ℕ → Type 0
IsByte n = n < 256

-- The sextets of a triple make up the triple.
sextets_triple :
    (a b c : ℕ)
    → IsByte a
    → IsByte b
    → IsByte c
    → let t = triple a b c in
      t / 2 ^ 18 % 64 * 2 ^ 18 + t / 2 ^ 12 % 64 * 2 ^ 12 + t / 2 ^ 6 % 64 * 2 ^ 6 + t % 64 ≡ t
sextets_triple a b c ha hb hc = omega arith

triple_bytes :
    (a b c : ℕ)
    → IsByte a
    → IsByte b
    → IsByte c
    → let t = triple a b c in (t / 2 ^ 16 % 256 ≡ a) × (t / 2 ^ 8 % 256 ≡ b) × (t % 256 ≡ c)
triple_bytes a b c ha hb hc = (omega arith, omega arith, omega arith)

decode_groups-encode :
    (bs : Bytes) → All IsByte bs → decode_groups (auth_base64_encode bs) ≡ decoded bs
unfolding auth_base64_encode decode_groups
decode_groups-encode [] h = refl
decode_groups-encode (a ∷ []) h =
    let t = triple a 0 0 in
    ground (arith, sextet-base64_char (t / 2 ^ 18), sextet-base64_char (t / 2 ^ 12), sextet-pad)
decode_groups-encode (a ∷ b ∷ []) h =
    let t = triple a b 0 in
    ground (
      arith,
      sextet-base64_char (t / 2 ^ 18),
      sextet-base64_char (t / 2 ^ 12),
      sextet-base64_char (t / 2 ^ 6),
      base64_char_ne (t / 2 ^ 6),
      sextet-pad,
    )
decode_groups-encode (a ∷ b ∷ c ∷ rest) h =
    let t = triple a b c in
    ground (
      arith,
      sextet-base64_char (t / 2 ^ 18),
      sextet-base64_char (t / 2 ^ 12),
      sextet-base64_char (t / 2 ^ 6),
      sextet-base64_char t,
      base64_char_ne (t / 2 ^ 6),
      base64_char_ne t,
      decode_groups-encode rest h.1.1.1,
      sextets_triple a b c h.0 h.1.0 h.1.1.0,
      triple_bytes a b c h.0 h.1.0 h.1.1.0,
    )

length-encode : (bs : Bytes) → length (auth_base64_encode bs) ≡ (length bs + 2) / 3 * 4
unfolding auth_base64_encode
length-encode [] = refl
length-encode (a ∷ []) = refl
length-encode (a ∷ b ∷ []) = refl
length-encode (a ∷ b ∷ c ∷ rest) = omega (arith, length-encode rest)

-- Decoding an encoding of bytes gives the bytes; the encoding of n bytes has 4 characters for each
-- three bytes begun.
pub auth_base64_decode-encode :
    (bs : Bytes)
    → All IsByte bs
    → (auth_base64_decode (auth_base64_encode bs) ≡ decoded bs)
      × (length (auth_base64_encode bs) ≡ (length bs + 2) / 3 * 4)
unfolding auth_base64_decode
auth_base64_decode-encode bs h =
    (ground (arith, decode_groups-encode bs h, length-encode bs), length-encode bs)
