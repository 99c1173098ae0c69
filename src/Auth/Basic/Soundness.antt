-- ===== src/Auth/Basic/Soundness.antt =====
-- What src/auth_utils.c accepts and refuses.
use strero.Prelude.{
  ◌≤◌, ◌≡◌, ◌≢◌, ◌↔◌, refl, Option, none, some, ◌++◌, All, length, Bytes, codes, str_eq_iff,
  has_prefix-append, arith,
}
use strero.Auth.Base64.{auth_base64_encode}
use strero.Auth.Base64.RoundTrip.{IsByte, auth_base64_decode-encode}
use strero.Auth.Basic.{
  success, required, error, AuthConfig, Parsed, credentials, malformed, fault, credentials_size,
  auth_parse_basic_header, auth_validate_basic,
}

-- Only the configured credentials are accepted: a header is accepted exactly if it parses to the
-- configured user name and password. A missing header is answered by REQUIRED, and the function
-- faults exactly if parsing does.
pub auth_validate_basic_lem :
    (header : Bytes) (config : AuthConfig)
    → (auth_validate_basic none config ≡ some required)
      × (auth_validate_basic (some header) config ≡ some success
          ↔ auth_parse_basic_header header ≡ credentials config.username config.password)
      × (auth_validate_basic (some header) config ≡ none ↔ auth_parse_basic_header header ≡ fault)
unfolding auth_validate_basic
auth_validate_basic_lem header config = go (auth_parse_basic_header header) refl
  where
    go :
        (p : Parsed)
        → auth_parse_basic_header header ≡ p
        → (auth_validate_basic none config ≡ some required)
          × (auth_validate_basic (some header) config ≡ some success
              ↔ auth_parse_basic_header header ≡ credentials config.username config.password)
          × (auth_validate_basic (some header) config ≡ none
              ↔ auth_parse_basic_header header ≡ fault)
    go (credentials u w) e = (
      refl,
      (
        ground (arith, str_eq_iff u config.username, str_eq_iff w config.password),
        ground (arith, str_eq_iff u config.username, str_eq_iff w config.password),
      ),
      (
        ground (arith, str_eq_iff u config.username, str_eq_iff w config.password),
        ground (arith, str_eq_iff u config.username, str_eq_iff w config.password),
      ),
    )
    go malformed e = (refl, (ground arith, ground arith), (ground arith, ground arith))
    go fault e = (refl, (ground arith, ground arith), (ground arith, ground arith))

-- Any header that encodes 128 bytes or more overruns the buffer of `auth_parse_basic_header`.
pub auth_parse_basic_header_overrun :
    (bs : Bytes)
    → All IsByte bs
    → credentials_size ≤ length bs
    → auth_parse_basic_header (codes "Basic " ++ auth_base64_encode bs) ≡ fault
unfolding auth_parse_basic_header
auth_parse_basic_header_overrun bs h long = ground (
  arith,
  has_prefix-append (codes "Basic ") (auth_base64_encode bs),
  auth_base64_decode-encode bs h,
)

-- No header is answered by ERROR.
pub auth_validate_basic_no_error :
    (header : Option Bytes) (config : AuthConfig) → auth_validate_basic header config ≢ some error
unfolding auth_validate_basic
auth_validate_basic_no_error none config = ground arith
auth_validate_basic_no_error (some header) config = go (auth_parse_basic_header header) refl
  where
    go :
        (p : Parsed)
        → auth_parse_basic_header header ≡ p
        → auth_validate_basic (some header) config ≢ some error
    go (credentials u w) e = ground arith
    go malformed e = ground arith
    go fault e = ground arith
