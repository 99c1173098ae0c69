-- ===== src/RtmpServer/Commands/RoundTrip.antt =====
-- Commands in AMF0, and what `rtmp_command_parse` of src/modules/rtmp_server/rtmp_server.c reads in
-- them, in those of the server's own replies too.
use mathlib.Core.Option
use strero.Prelude.{
  ℕ, zero, suc, ◌≤◌, ◌≡◌, refl, ap, ◌∙◌, some, List, [], ◌∷◌, ◌++◌, length, length-append, All,
  Bytes, Lacks, c_string, arith,
}
use strero.RtmpServer.Amf.{
  Value, number, boolean, text, null, undefined, object, amf_encode_string, amf_encode_number,
  amf_encode_null, amf_encode_boolean, amf_encode_object_start,
}
use strero.RtmpServer.Amf.RoundTrip.{encode_value, IsValue, amf_decode_value-encode_value}
use strero.RtmpServer.Commands.{
  Command, decode, text_of, number_of, decode_arguments, decode_command_object, rtmp_command_parse,
}

unfoldable pub encode_all : List Value → Bytes
encode_all [] = []
encode_all (v ∷ vs) = encode_value v ++ encode_all vs

-- The bytes of a command.
unfoldable pub encode_command : Command → Bytes
encode_command command =
    encode_value (text command.command_name)
    ++ (encode_value (number command.transaction_id)
        ++ (encode_value command.command_object ++ encode_all command.arguments))

decode_lem :
    (v : Value) (rest : Bytes) → IsValue v → decode (encode_value v ++ rest) ≡ some (v, rest)
decode_lem v rest fits =
    amf_decode_value-encode_value v (length (encode_value v ++ rest)) rest fits
      (omega (arith, length-append (encode_value v) rest))

-- An encoding is not empty, so that neither test for the end of the buffer stops at it.
length-encode_value : (v : Value) → 1 ≤ length (encode_value v)
unfolding encode_value amf_encode_object_start amf_encode_null amf_encode_string amf_encode_boolean
    amf_encode_number
length-encode_value (number n) = omega arith
length-encode_value (boolean b) = omega arith
length-encode_value (text s) = omega arith
length-encode_value null = omega arith
length-encode_value undefined = omega arith
length-encode_value (object ps) = omega arith

arguments_step :
    (rounds : ℕ) (v : Value) (rest : Bytes)
    → decode_arguments (suc rounds) (encode_value v ++ rest)
      ≡ Option.bind
          (decode (encode_value v ++ rest))
          (λ value. Option.map (λ later. value.0 ∷ later) (decode_arguments rounds value.1))
unfolding decode_arguments encode_value amf_encode_object_start amf_encode_null amf_encode_string
    amf_encode_boolean amf_encode_number
arguments_step rounds (number n) rest = refl
arguments_step rounds (boolean b) rest = refl
arguments_step rounds (text s) rest = refl
arguments_step rounds null rest = refl
arguments_step rounds undefined rest = refl
arguments_step rounds (object ps) rest = refl

command_object_step :
    (v : Value) (rest : Bytes)
    → decode_command_object (encode_value v ++ rest) ≡ decode (encode_value v ++ rest)
unfolding decode_command_object encode_value amf_encode_object_start amf_encode_null
    amf_encode_string amf_encode_boolean amf_encode_number
command_object_step (number n) rest = refl
command_object_step (boolean b) rest = refl
command_object_step (text s) rest = refl
command_object_step null rest = refl
command_object_step undefined rest = refl
command_object_step (object ps) rest = refl

c_string_lem : (s : Bytes) → Lacks 0 s → c_string s ≡ s
unfolding c_string
c_string_lem [] h = refl
c_string_lem (x ∷ s) h = rw h.0 (ap (λ l. x ∷ l) (c_string_lem s h.1))

decode_arguments_lem :
    (vs : List Value) (rounds : ℕ)
    → All IsValue vs
    → length (encode_all vs) ≤ rounds
    → decode_arguments rounds (encode_all vs) ≡ some vs
unfolding decode_arguments encode_all Option.bind
decode_arguments_lem [] rounds fits h = refl
decode_arguments_lem (v ∷ vs) zero fits h =
    absurd (omega (arith, length-encode_value v, length-append (encode_value v) (encode_all vs)))
decode_arguments_lem (v ∷ vs) (suc rounds) fits h =
    arguments_step rounds v (encode_all vs)
    ∙ rw (decode_lem v (encode_all vs) fits.0) (
        rw
          (decode_arguments_lem vs rounds fits.1
            (omega (arith, length-encode_value v, length-append (encode_value v) (encode_all vs))))
          refl)

-- A command that can be encoded: its name is a C string, and its parts fit.
abbrev pub IsCommand : Command → Type 0
IsCommand command =
    Lacks 0 command.command_name
    × IsValue (text command.command_name)
    × IsValue (number command.transaction_id)
    × IsValue command.command_object
    × All IsValue command.arguments

-- Every command whose name has no zero byte and whose parts fit (names and strings of fewer than
-- 65536 bytes, numbers of 64 bits): `rtmp_command_parse` reads its encoding back, with its name,
-- transaction, object and all its arguments.
pub rtmp_command_parse-encode_command :
    (command : Command)
    → IsCommand command
    → rtmp_command_parse (encode_command command) ≡ some command
unfolding rtmp_command_parse encode_command text_of number_of Option.bind
rtmp_command_parse-encode_command command (name, name_fits, id_fits, object_fits, rest_fit) =
    rw (decode_lem (text command.command_name) _ name_fits) (
      rw (c_string_lem command.command_name name) (
        rw (decode_lem (number command.transaction_id) _ id_fits) (
          rw (command_object_step command.command_object (encode_all command.arguments)) (
            rw (decode_lem command.command_object (encode_all command.arguments) object_fits) (
              rw
                (decode_arguments_lem command.arguments (length (encode_all command.arguments))
                  rest_fit (omega arith))
                refl)))))
