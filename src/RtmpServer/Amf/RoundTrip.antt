-- ===== src/RtmpServer/Amf/RoundTrip.antt =====
-- AMF0 values in the form that the encoders of src/modules/rtmp_server/rtmp_server.c give their
-- parts, and that the decoder reads them back.
use mathlib.Core.Option
use strero.Prelude.{
  ℕ, zero, suc, ◌+◌, ◌*◌, ◌/◌, ◌%◌, ◌≤◌, ◌<◌, ◌≡◌, refl, ap, ◌∙◌, true, false, some, [], ◌∷◌, ◌++◌,
  append_assoc, ltb, length, length-append, take_short, take-append_length, drop-append_length,
  Bytes, has_prefix, has_prefix-append, arith,
}
use strero.RtmpServer.{be16, be32, read_be32}
use strero.RtmpServer.Amf.{
  Value, number, boolean, text, null, undefined, object, Properties, end, property,
  amf_encode_number, amf_encode_boolean, amf_encode_null, amf_encode_string,
  amf_encode_object_start, amf_encode_object_end, amf_decode_string, decode_number, decode_boolean,
  decode_scalar, amf_decode_value, amf_decode_object,
}

-- The encoding of a value, by the encoders; that of a property is a name behind its length and a
-- value.
unfoldable mutual
  pub encode_value : Value → Bytes
  encode_value (number n) = amf_encode_number n
  encode_value (boolean b) = amf_encode_boolean b
  encode_value (text s) = amf_encode_string (some s)
  encode_value null = amf_encode_null
  encode_value undefined = 6 ∷ []
  encode_value (object ps) = amf_encode_object_start ++ encode_properties ps

  pub encode_properties : Properties → Bytes
  encode_properties end = amf_encode_object_end
  encode_properties (property name v ps) =
      be16 (length name) ++ (name ++ (encode_value v ++ encode_properties ps))

-- Numbers of 64 bits, and strings and names whose length has 16.
abbrev mutual
  pub IsValue : Value → Type 0
  IsValue (number n) = n < 18446744073709551616
  IsValue (boolean b) = Unit
  IsValue (text s) = length s < 65536
  IsValue null = Unit
  IsValue undefined = Unit
  IsValue (object ps) = AreValues ps

  pub AreValues : Properties → Type 0
  AreValues end = Unit
  AreValues (property name v ps) = (length name < 65536) × IsValue v × AreValues ps

decode_string_lem :
    (s rest : Bytes)
    → length s < 65536
    → amf_decode_string (be16 (length s) ++ (s ++ rest)) ≡ some (s, rest)
unfolding amf_decode_string
decode_string_lem s rest fits =
    let size : length s / 256 % 256 * 256 + length s % 256 ≡ length s = omega arith in
    let enough : ltb (length (s ++ rest)) (length s) ≡ false =
      ground (arith, length-append s rest) in
    rw size (rw enough (rw (take-append_length s rest, drop-append_length s rest) refl))

decode_number_lem :
    (n : ℕ) (rest : Bytes)
    → n < 18446744073709551616
    → decode_number (be32 (n / 4294967296) ++ (be32 n ++ rest)) ≡ some (number n, rest)
unfolding decode_number
decode_number_lem n rest fits =
    let back : read_be32 (be32 (n / 4294967296) ++ (be32 n ++ rest)) 0 * 4294967296
          + read_be32 (be32 (n / 4294967296) ++ (be32 n ++ rest)) 4
        ≡ n =
      omega arith in
    let enough : ltb (length (be32 (n / 4294967296) ++ (be32 n ++ rest))) 8 ≡ false =
      ground arith in
    rw (enough, back) refl

-- A value does not begin like the end of an object.
not_marker_value :
    (v : Value) (later : Bytes) → has_prefix (9 ∷ []) (encode_value v ++ later) ≡ false
unfolding has_prefix encode_value encode_properties amf_encode_object_start amf_encode_null
    amf_encode_string amf_encode_boolean amf_encode_number
not_marker_value (number n) later = refl
not_marker_value (boolean b) later = refl
not_marker_value (text s) later = refl
not_marker_value null later = refl
not_marker_value undefined later = refl
not_marker_value (object ps) later = refl

not_marker :
    (name : Bytes) (v : Value) (later : Bytes)
    → length name < 65536
    → has_prefix (0 ∷ 0 ∷ 9 ∷ []) (be16 (length name) ++ (name ++ (encode_value v ++ later)))
      ≡ false
unfolding has_prefix
not_marker [] v later fits = not_marker_value v later
not_marker (c ∷ name) v later fits = ground arith

regroup : (a b c d : Bytes) → (a ++ (b ++ c)) ++ d ≡ a ++ (b ++ (c ++ d))
regroup a b c d = append_assoc a (b ++ c) d ∙ ap (λ l. a ++ l) (append_assoc b c d)

mutual
  unfolding encode_value encode_properties amf_encode_object_start amf_encode_object_end
      amf_encode_null amf_encode_string amf_encode_boolean amf_encode_number amf_decode_value
      amf_decode_object decode_scalar decode_boolean Option.bind

  decode_value_lem :
      (v : Value) (rounds : ℕ) (rest : Bytes)
      → IsValue v
      → length (encode_value v) ≤ rounds
      → amf_decode_value rounds (encode_value v ++ rest) ≡ some (v, rest)
  decode_value_lem (number n) zero rest fits h = elim h [ ]
  decode_value_lem (number n) (suc rounds) rest fits h = decode_number_lem n rest fits
  decode_value_lem (boolean true) zero rest fits h = elim h [ ]
  decode_value_lem (boolean true) (suc rounds) rest fits h = refl
  decode_value_lem (boolean false) zero rest fits h = elim h [ ]
  decode_value_lem (boolean false) (suc rounds) rest fits h = refl
  decode_value_lem (text s) zero rest fits h = elim h [ ]
  decode_value_lem (text s) (suc rounds) rest fits h =
      let short : length s % 65536 ≡ length s = omega arith in
      rw (short, take_short (length s) s (omega arith))
        (ap (Option.map (λ (o : Bytes × Bytes). (text o.0, o.1))) (decode_string_lem s rest fits))
  decode_value_lem null zero rest fits h = elim h [ ]
  decode_value_lem null (suc rounds) rest fits h = refl
  decode_value_lem undefined zero rest fits h = elim h [ ]
  decode_value_lem undefined (suc rounds) rest fits h = refl
  decode_value_lem (object ps) zero rest fits h = elim h [ ]
  decode_value_lem (object ps) (suc rounds) rest fits h =
      ap (Option.map (λ (o : Properties × Bytes). (object o.0, o.1)))
        (decode_object_lem ps rounds rest fits (omega arith))

  decode_object_lem :
      (ps : Properties) (rounds : ℕ) (rest : Bytes)
      → AreValues ps
      → length (encode_properties ps) ≤ rounds
      → amf_decode_object rounds (encode_properties ps ++ rest) ≡ some (ps, rest)
  decode_object_lem end zero rest fits h = elim h [ ]
  decode_object_lem end (suc rounds) rest fits h =
      rw (has_prefix-append (0 ∷ 0 ∷ 9 ∷ []) rest, amf_decode_object) refl
  decode_object_lem (property name v ps) zero rest fits h = elim h [ ]
  decode_object_lem (property name v ps) (suc rounds) rest fits h =
      let behind : Bytes = encode_properties ps ++ rest in
      let size : length (encode_properties (property name v ps))
          ≡ 2 + length name + length (encode_value v) + length (encode_properties ps) =
        omega (
          arith,
          length-append name (encode_value v ++ encode_properties ps),
          length-append (encode_value v) (encode_properties ps),
        ) in
      rw (regroup name (encode_value v) (encode_properties ps) rest) (
        rw (not_marker name v behind fits.0, amf_decode_object)
          (rw (decode_string_lem name (encode_value v ++ behind) fits.0) (
            rw (decode_value_lem v rounds behind fits.1 (omega arith))
              (rw (decode_object_lem ps rounds rest fits.2 (omega arith)) refl))))

-- Every value whose numbers have 64 bits and whose strings and names have fewer than 65536 bytes:
-- encoded with whatever bytes behind, `amf_decode_value` reads the same value and leaves those
-- bytes, objects within objects included.
pub amf_decode_value-encode_value :
    (v : Value) (rounds : ℕ) (rest : Bytes)
    → IsValue v
    → length (encode_value v) ≤ rounds
    → amf_decode_value rounds (encode_value v ++ rest) ≡ some (v, rest)
amf_decode_value-encode_value v rounds rest fits h = decode_value_lem v rounds rest fits h
