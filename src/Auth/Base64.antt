-- ===== src/Auth/Base64.antt =====
-- `auth_base64_encode` and `auth_base64_decode` of src/auth_utils.c.
pub mod RoundTrip
use Prim.Native.Nat.{bit_and}
use strero.Prelude.{
  ℕ, zero, suc, ◌+◌, ◌-◌, ◌*◌, ◌/◌, ◌%◌, ◌^◌, Bool, true, false, not, ◌&&◌, ◌||◌, Option, none,
  some, List, [], ◌∷◌, ◌++◌, leb, ltb, ◌==◌, if◌then◌else◌, length, get_elem?, get_or, Bytes, codes,
}

abbrev pub base64_chars : Bytes
base64_chars = codes "ABCDEFGHIJKLMNOPQRSTUVWXYZabcdefghijklmnopqrstuvwxyz0123456789+/"

-- base64_chars[n & 63]
unfoldable pub base64_char : ℕ → ℕ
base64_char n = get_or base64_chars (n % 64) 0

abbrev pub pad : ℕ
pad = b'='

-- (octet_a << 16) + (octet_b << 8) + octet_c
abbrev pub triple : ℕ → ℕ → ℕ → ℕ
triple a b c = a * 2 ^ 16 + b * 2 ^ 8 + c

-- One round for each three bytes of input, the last with one or two if they do not go out even.
unfoldable pub auth_base64_encode : Bytes → Bytes
auth_base64_encode [] = []
auth_base64_encode (a ∷ []) =
    let t = triple a 0 0 in base64_char (t / 2 ^ 18) ∷ base64_char (t / 2 ^ 12) ∷ pad ∷ pad ∷ []
auth_base64_encode (a ∷ b ∷ []) =
    let t = triple a b 0 in
    base64_char (t / 2 ^ 18) ∷ base64_char (t / 2 ^ 12) ∷ base64_char (t / 2 ^ 6) ∷ pad ∷ []
auth_base64_encode (a ∷ b ∷ c ∷ rest) =
    let t = triple a b c in
    base64_char (t / 2 ^ 18)
    ∷ base64_char (t / 2 ^ 12)
    ∷ base64_char (t / 2 ^ 6)
    ∷ base64_char t
    ∷ auth_base64_encode rest

-- strchr(base64_chars, c) - base64_chars, `none` if strchr finds nothing.
pub index_of : ℕ → Bytes → ℕ → Option ℕ
index_of c [] i = none
index_of c (x ∷ xs) i = let later = index_of c xs (i + 1) in if x == c then some i else later

-- A sextet. The C code subtracts from NULL where the character is not in the table: `none`.
pub sextet : ℕ → Option ℕ
sextet c = if c == pad then some 0 else index_of c base64_chars 0

-- The result of a decoding: the bytes, -1 for a length that is no multiple of four, or an undefined
-- value where a character is neither in the table nor `=`.
pub data Decoded : Type 0 where
  decoded : Bytes → Decoded
  invalid_length undefined_value : Decoded

abbrev pub prepend : Bytes → Decoded → Decoded
prepend out (decoded rest) = decoded (out ++ rest)
prepend out invalid_length = invalid_length
prepend out undefined_value = undefined_value

-- What one round writes, from the four sextets and the third and fourth character.
abbrev decode_group : ℕ → ℕ → ℕ → ℕ → ℕ → ℕ → Bytes
decode_group sa sb sc sd c d =
    let t = sa * 2 ^ 18 + sb * 2 ^ 12 + sc * 2 ^ 6 + sd in
    let last = (if d == pad then [] else t % 256 ∷ []) in
    t / 2 ^ 16 % 256 ∷ (if c == pad then last else t / 2 ^ 8 % 256 ∷ last)

pub decode_groups : Bytes → Decoded
decode_groups (a ∷ b ∷ c ∷ d ∷ input) =
    let rest = decode_groups input in
    elim (sextet a) [
      | none ↦ undefined_value
      | some sa ↦ elim (sextet b) [
        | none ↦ undefined_value
        | some sb ↦ elim (sextet c) [
          | none ↦ undefined_value
          | some sc ↦ elim (sextet d) [
            | none ↦ undefined_value
            | some sd ↦ prepend (decode_group sa sb sc sd c d) rest
          ]
        ]
      ]
    ]
decode_groups _ = decoded []

pub auth_base64_decode : Bytes → Decoded
auth_base64_decode input =
    if not (length input % 4 == 0) then invalid_length else decode_groups input
