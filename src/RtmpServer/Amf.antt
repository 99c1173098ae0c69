-- ===== src/RtmpServer/Amf.antt =====
-- AMF0 values: the amf_encode_ and amf_decode_ functions of
-- src/modules/rtmp_server/rtmp_server.c.
--
-- A double is the number that its 64 bits make. The rest of a buffer stands for the offset in it,
-- and what an encoder puts in its buffer is its result. Allocations succeed.
pub mod RoundTrip
pub mod Fuel
use mathlib.Core.Option
use strero.Prelude.{
  ℕ, zero, suc, ◌+◌, ◌*◌, ◌/◌, ◌%◌, ◌^◌, Bool, true, false, Option, none, some, List, [], ◌∷◌, ◌++◌,
  ltb, ◌==◌, if◌then◌else◌, length, take, drop, get_or, Bytes, has_prefix, not,
}
use strero.RtmpServer.{be16, be32, read_be32}

-- amf_value_t, as far as the decoder makes it: a boolean, null, undefined, and so on.
mutual
  pub data Value : Type 0 where
    number : ℕ → Value
    boolean : Bool → Value
    text : Bytes → Value
    null : Value
    undefined : Value
    object : Properties → Value

  -- amf_property_t
  pub data Properties : Type 0 where
    end : Properties
    property : Bytes → Value → Properties → Properties

unfoldable pub amf_encode_number : ℕ → Bytes
amf_encode_number n = 0 ∷ (be32 (n / 4294967296) ++ be32 n)

unfoldable pub amf_encode_boolean : Bool → Bytes
amf_encode_boolean b = 1 ∷ (if b then 1 else 0) ∷ []

unfoldable pub amf_encode_null : Bytes
amf_encode_null = 5 ∷ []

-- The length is an uint16_t: a longer string is cut to its length modulo 2^16.
unfoldable pub amf_encode_string : Option Bytes → Bytes
amf_encode_string none = amf_encode_null
amf_encode_string (some s) = 2 ∷ (be16 (length s) ++ take (length s % 65536) s)

unfoldable pub amf_encode_object_start : Bytes
amf_encode_object_start = 3 ∷ []

unfoldable pub amf_encode_object_end : Bytes
amf_encode_object_end = 0 ∷ 0 ∷ 9 ∷ []

-- A string behind its length.
unfoldable pub amf_decode_string : Bytes → Option (Bytes × Bytes)
amf_decode_string [] = none
amf_decode_string (a ∷ []) = none
amf_decode_string (a ∷ b ∷ rest) =
    if ltb (length rest) (a * 256 + b)
    then none
    else some (take (a * 256 + b) rest, drop (a * 256 + b) rest)

unfoldable pub decode_number : Bytes → Option (Value × Bytes)
decode_number bytes =
    if ltb (length bytes) 8
    then none
    else some (number (read_be32 bytes 0 * 4294967296 + read_be32 bytes 4), drop 8 bytes)

unfoldable pub decode_boolean : Bytes → Option (Value × Bytes)
decode_boolean [] = none
decode_boolean (b ∷ rest) = some (boolean (not (b == 0)), rest)

-- A value that is no object, behind its type.
unfoldable pub decode_scalar : ℕ → Bytes → Option (Value × Bytes)
decode_scalar type bytes =
    if type == 0
    then decode_number bytes
    else if type == 1
    then decode_boolean bytes
    else if type == 2
    then Option.map (λ s. (text s.0, s.1)) (amf_decode_string bytes)
    else if type == 5
    then some (null, bytes)
    else if type == 6
    then some (undefined, bytes)
    else none

-- `none` is -1. The first argument bounds the calls within one another; as many as the buffer has
-- bytes are enough.
unfoldable mutual
  pub amf_decode_value : ℕ → Bytes → Option (Value × Bytes)
  amf_decode_value rounds [] = none
  amf_decode_value zero (type ∷ bytes) = none
  amf_decode_value (suc rounds) (type ∷ bytes) = elim (type == 3) [
    | true ↦ Option.map (λ o. (object o.0, o.1)) (amf_decode_object rounds bytes)
    | false ↦ decode_scalar type bytes
  ]

  -- An object ends with its marker or with the buffer.
  pub amf_decode_object : ℕ → Bytes → Option (Properties × Bytes)
  amf_decode_object rounds [] = some (end, [])
  amf_decode_object zero (b ∷ bytes) = none
  amf_decode_object (suc rounds) (b ∷ bytes) = elim (has_prefix (0 ∷ 0 ∷ 9 ∷ []) (b ∷ bytes)) [
    | true ↦ some (end, drop 3 (b ∷ bytes))
    | false ↦ Option.bind (amf_decode_string (b ∷ bytes)) (λ name.
        Option.bind (amf_decode_value rounds name.1) (λ value.
          Option.map (λ later. (property name.0 value.0 later.0, later.1))
            (amf_decode_object rounds value.1)))
  ]
