-- ===== src/RtmpServer/Commands.antt =====
-- The commands of a client: `rtmp_command_parse` of src/modules/rtmp_server/rtmp_server.c.
pub mod RoundTrip
pub mod Replies
use mathlib.Core.Option
use strero.Prelude.{
  ℕ, zero, suc, ◌+◌, Bool, true, false, Option, none, some, List, [], ◌∷◌, ◌++◌, ◌==◌,
  if◌then◌else◌, length, Bytes, c_string, str_eq, take,
}
use strero.RtmpServer.Amf.{
  Value, number, boolean, text, null, undefined, object, Properties, end, property,
  amf_decode_value,
}

-- rtmp_command_t. It was cleared, so that a command with no object has the number 0 there.
pub record Command : Type 0 where
  pub command_name : Bytes
  pub transaction_id : ℕ
  pub command_object : Value
  pub arguments : List Value

-- A value from the buffer, with rounds enough.
abbrev pub decode : Bytes → Option (Value × Bytes)
decode bytes = amf_decode_value (length bytes) bytes

-- The C string of a value that is a string.
unfoldable pub text_of : Value → Option Bytes
text_of (text s) = some (c_string s)
text_of (number n) = none
text_of (boolean b) = none
text_of null = none
text_of undefined = none
text_of (object ps) = none

unfoldable pub number_of : Value → Option ℕ
number_of (number n) = some n
number_of (text s) = none
number_of (boolean b) = none
number_of null = none
number_of undefined = none
number_of (object ps) = none

-- The arguments up to the end of the buffer; each takes a byte or more.
unfoldable pub decode_arguments : ℕ → Bytes → Option (List Value)
decode_arguments rounds [] = some []
decode_arguments zero (b ∷ bytes) = none
decode_arguments (suc rounds) (b ∷ bytes) =
    Option.bind (decode (b ∷ bytes))
      (λ value. Option.map (λ later. value.0 ∷ later) (decode_arguments rounds value.1))

unfoldable pub decode_command_object : Bytes → Option (Value × Bytes)
decode_command_object [] = some (number 0, [])
decode_command_object (b ∷ bytes) = decode (b ∷ bytes)

-- `none` is -1.
unfoldable pub rtmp_command_parse : Bytes → Option Command
rtmp_command_parse buffer = Option.bind (decode buffer) (λ name_value.
    Option.bind (text_of name_value.0) (λ name. Option.bind (decode name_value.1) (λ id_value.
      Option.bind (number_of id_value.0) (λ id.
        Option.bind (decode_command_object id_value.1) (λ command_object.
          Option.map
            (λ arguments. record {
              command_name = name;
              transaction_id = id;
              command_object = command_object.0;
              arguments = arguments;
            })
            (decode_arguments (length command_object.1) command_object.1))))))
