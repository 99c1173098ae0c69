-- ===== src/Auth/Basic.antt =====
-- Basic authentication in src/auth_utils.c: the Basic header, the Authorization header of a request,
-- and the comparison with the configured credentials.
pub mod Soundness
pub mod Completeness
use strero.Prelude.{
  ℕ, ◌+◌, ◌-◌, Bool, true, false, not, ◌&&◌, ◌||◌, Option, none, some, List, [], ◌∷◌, ◌++◌, leb,
  ltb, ◌==◌, if◌then◌else◌, length, take, drop, Bytes, codes, str_eq, find_char, find_str,
  has_prefix, c_string,
}
use strero.Auth.Base64.{
  Decoded, decoded, invalid_length, undefined_value, auth_base64_encode, auth_base64_decode,
}

pub data AuthResult : Type 0 where
  success required invalid error : AuthResult

pub record AuthConfig : Type 0 where
  pub enabled : Bool
  pub localhost_bypass : Bool
  pub username : Bytes
  pub password : Bytes

-- The size of `decoded` in `auth_parse_basic_header`, and of `credentials` in the encoder.
abbrev pub credentials_size : ℕ
credentials_size = 128

-- The size of `username` and of `password`.
abbrev pub name_size : ℕ
name_size = 64

-- `fault`: the decoder writes behind `decoded`, or computes with a NULL pointer.
pub data Parsed : Type 0 where
  credentials : Bytes → Bytes → Parsed
  malformed fault : Parsed

split_credentials : Bytes → Parsed
split_credentials text = elim (find_char b':' text) [
  | none ↦ malformed
  | some (before, from_colon) ↦
      credentials (take (name_size - 1) before) (take (name_size - 1) (drop 1 from_colon))
]

pub auth_parse_basic_header : Bytes → Parsed
auth_parse_basic_header header =
    if not (has_prefix (codes "Basic ") header)
    then malformed
    else elim (auth_base64_decode (drop 6 header)) [
      | invalid_length ↦ malformed
      | undefined_value ↦ fault
      | decoded bytes ↦
          if leb credentials_size (length bytes) then fault else split_credentials (c_string bytes)
    ]

-- `none` is a fault; a missing header is a NULL pointer.
pub auth_validate_basic : Option Bytes → AuthConfig → Option AuthResult
auth_validate_basic none config = some required
auth_validate_basic (some header) config = elim (auth_parse_basic_header header) [
  | malformed ↦ some invalid
  | fault ↦ none
  | credentials username password ↦
      if str_eq username config.username && str_eq password config.password
      then some success
      else some invalid
]

-- snprintf(credentials, sizeof(credentials), "%s:%s", username, password), encoded.
unfoldable pub auth_encode_basic_credentials : Bytes → Bytes → Bytes
auth_encode_basic_credentials username password =
    auth_base64_encode (take (credentials_size - 1) (username ++ (b':' ∷ password)))

-- snprintf(output, 256, ...)
unfoldable pub auth_generate_www_authenticate_header : Bytes → Bytes
auth_generate_www_authenticate_header realm =
    take 255 (codes "WWW-Authenticate: Basic realm=\"" ++ realm ++ codes "\"")

-- `while (*auth_line == ' ') auth_line++;`
pub skip_blanks : Bytes → Bytes
skip_blanks [] = []
skip_blanks (x ∷ xs) = let rest = skip_blanks xs in if x == b' ' then rest else x ∷ xs

abbrev pub crlf : Bytes
crlf = 13 ∷ 10 ∷ []

-- The value of the header whose name begins at a position. Without an end of line it is the rest of
-- the request; otherwise it is copied into a buffer of 256 bytes.
pub header_value : Bytes → Bytes
header_value from_name =
    let line = skip_blanks (drop 14 from_name) in
    elim (find_str crlf line) [
      | some (value, _) ↦ take 255 value
      | none ↦ elim (find_str (10 ∷ []) line) [ some (value, _) ↦ take 255 value | none ↦ line ]
    ]

unfoldable pub extract_auth_header : Bytes → Option Bytes
extract_auth_header request = elim (find_str (codes "Authorization:") request) [
  | some (_, from_name) ↦ some (header_value from_name)
  | none ↦ elim (find_str (codes "authorization:") request) [
    | some (_, from_name) ↦ some (header_value from_name)
    | none ↦ none
  ]
]
