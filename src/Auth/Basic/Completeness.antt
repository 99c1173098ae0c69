-- ===== src/Auth/Basic/Completeness.antt =====
-- A client that encodes the configured credentials is accepted by src/auth_utils.c.
use strero.Prelude.{
  take_short, ℕ, suc, ◌+◌, ◌-◌, ◌<◌, ◌≡◌, refl, ◌∙◌, ap, some, [], ◌∷◌, ◌++◌, All, All-append,
  length, length-append, Bytes, codes, Lacks, find_char-append, has_prefix-append, c_string, arith,
}
use strero.Auth.Base64.{auth_base64_encode}
use strero.Auth.Base64.RoundTrip.{IsByte, auth_base64_decode-encode}
use strero.Auth.Basic.Soundness.{auth_validate_basic_lem}
use strero.Auth.Basic.{
  success, AuthConfig, credentials, credentials_size, name_size, split_credentials,
  auth_parse_basic_header, auth_validate_basic, auth_encode_basic_credentials,
}

-- A byte of a C string.
abbrev pub IsText : ℕ → Type 0
IsText n = (0 < n) × (n < 256)

text-IsByte : (s : Bytes) → All IsText s → All IsByte s
text-IsByte [] h = tt
text-IsByte (x ∷ s) (now, later) = (now.1, text-IsByte s later)

c_string-text : (s : Bytes) → All IsText s → c_string s ≡ s
unfolding c_string
c_string-text [] h = refl
c_string-text (x ∷ s) (now, later) = ground (arith, c_string-text s later)

split_credentials-pair :
    (user password : Bytes)
    → Lacks b':' user
    → length user < name_size
    → length password < name_size
    → split_credentials (user ++ (b':' ∷ password)) ≡ credentials user password
unfolding split_credentials
split_credentials-pair user password h fu fp = ground (
  arith,
  find_char-append b':' user password h,
  take_short (name_size - 1) user (omega arith),
  take_short (name_size - 1) password (omega arith),
)

auth_parse_basic_header-encode :
    (bs : Bytes)
    → All IsByte bs
    → length bs < credentials_size
    → auth_parse_basic_header (codes "Basic " ++ auth_base64_encode bs)
      ≡ split_credentials (c_string bs)
unfolding auth_parse_basic_header
auth_parse_basic_header-encode bs h short = ground (
  arith,
  has_prefix-append (codes "Basic ") (auth_base64_encode bs),
  auth_base64_decode-encode bs h,
)

-- The header of a client that encodes a user name without a colon and a password, each of at most
-- 63 bytes, by `auth_encode_basic_credentials`, is accepted if they are the configured ones.
pub auth_validate_basic-encode :
    (config : AuthConfig)
    → All IsText config.username
    → All IsText config.password
    → Lacks b':' config.username
    → length config.username < name_size
    → length config.password < name_size
    → auth_validate_basic
        (some (codes "Basic " ++ auth_encode_basic_credentials config.username config.password))
        config
      ≡ some success
unfolding auth_encode_basic_credentials
auth_validate_basic-encode config tu tp h fu fp = (auth_validate_basic_lem header config).1.1 (
    ap (λ e. auth_parse_basic_header (codes "Basic " ++ e)) encoded
    ∙ auth_parse_basic_header-encode pair (text-IsByte pair pair-IsText)
        (omega (arith, pair-length))
    ∙ ap split_credentials (c_string-text pair pair-IsText)
    ∙ split_credentials-pair config.username config.password h fu fp)
  where
    header : Bytes
    header = codes "Basic " ++ auth_encode_basic_credentials config.username config.password

    pair : Bytes
    pair = config.username ++ (b':' ∷ config.password)

    pair-IsText : All IsText pair
    pair-IsText = All-append IsText config.username (b':' ∷ config.password) tu (ground arith, tp)

    pair-length : length pair ≡ length config.username + suc (length config.password)
    pair-length = length-append config.username (b':' ∷ config.password)

    encoded :
        auth_encode_basic_credentials config.username config.password ≡ auth_base64_encode pair
    encoded =
        ap auth_base64_encode (take_short (credentials_size - 1) pair (omega (arith, pair-length)))
