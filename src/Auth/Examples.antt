-- ===== src/Auth/Examples.antt =====
-- The checks of src/auth_utils.c on one configuration and a few clients and requests.
use strero.Prelude.{
  false, occurs, find_str, has_prefix, ℕ, suc, zero, ◌+◌, ◌*◌, ◌/◌, ◌≡◌, ◌↔◌, refl, ap, true, false,
  some, [], ◌∷◌, ◌++◌, All, length, Bytes, codes, arith,
}
use strero.Auth.Base64.{decoded, auth_base64_encode, auth_base64_decode, base64_char}
use strero.Auth.Base64.RoundTrip.{IsByte, auth_base64_decode-encode}
use strero.Auth.Basic.{
  AuthConfig, success, credentials, fault, auth_parse_basic_header, extract_auth_header, crlf,
  auth_encode_basic_credentials, auth_generate_www_authenticate_header,
}
use strero.Auth.Basic.Soundness.{auth_parse_basic_header_overrun}
use strero.Auth.Check.{
  ClientInfo, auth_is_localhost, auth_get_client_info, auth_is_required, auth_check_http_request,
  auth_check_rtsp_request, has_ws_security, auth_check_onvif_request,
}
use strero.Auth.Check.WsSecurity.{naming, auth_check_onvif_request-token}
use strero.Auth.Check.Access.{auth_check_http_request_lem}

abbrev config : AuthConfig
config = record {
  enabled = true;
  localhost_bypass = true;
  username = codes "a";
  password = codes "b";
}

-- 10.0.0.1
abbrev remote_addr : ℕ
remote_addr = 0x0a00_0001

abbrev remote : ClientInfo
remote = record { socket_fd = 7; addr = remote_addr; is_localhost = false }

abbrev request : Bytes
request = codes "GET / HTTP/1.1" ++ crlf ++ codes "Authorization: Basic YTpi" ++ crlf ++ crlf

encode_test : auth_encode_basic_credentials (codes "a") (codes "b") ≡ codes "YTpi"
unfolding auth_encode_basic_credentials auth_base64_encode base64_char
encode_test = refl

header_test :
    auth_generate_www_authenticate_header (codes "s") ≡ codes "WWW-Authenticate: Basic realm=\"s\""
unfolding auth_generate_www_authenticate_header
header_test = refl

abcd-IsByte : All IsByte (codes "abcd")
abcd-IsByte = (ground arith, (ground arith, (ground arith, (ground arith, tt))))

auth_base64_decode-encode_example :
    (auth_base64_decode (auth_base64_encode (codes "abcd")) ≡ decoded (codes "abcd"))
    × (length (auth_base64_encode (codes "abcd")) ≡ (4 + 2) / 3 * 4)
auth_base64_decode-encode_example = auth_base64_decode-encode (codes "abcd") abcd-IsByte

abbrev many : ℕ → Bytes
many zero = []
many (suc n) = b'a' ∷ many n

many-IsByte : (n : ℕ) → All IsByte (many n)
many-IsByte zero = tt
many-IsByte (suc n) = (ground arith, many-IsByte n)

length-many : (n : ℕ) → length (many n) ≡ n
length-many zero = refl
length-many (suc n) = ap suc (length-many n)

auth_parse_basic_header_overrun_example :
    auth_parse_basic_header (codes "Basic " ++ auth_base64_encode (many 128)) ≡ fault
auth_parse_basic_header_overrun_example =
    auth_parse_basic_header_overrun (many 128) (many-IsByte 128) (omega (arith, length-many 128))

found : auth_get_client_info 7 (some remote_addr) true ≡ some remote
unfolding auth_get_client_info auth_is_localhost
found = refl

must : auth_is_required config remote ≡ true
unfolding auth_is_required
must = refl

auth_check_http_request_lem_example :
    (auth_check_http_request request config remote ≡ some success ↔ (
      (header : Bytes) × (extract_auth_header request ≡ some header)
      × (auth_parse_basic_header header ≡ credentials (codes "a") (codes "b"))))
    × (auth_check_rtsp_request request config remote
        ≡ auth_check_http_request request config remote)
auth_check_http_request_lem_example = auth_check_http_request_lem request config remote must

abbrev behind_name : Bytes
behind_name = codes "<Password>x</Password></UsernameToken></Security></s:Header></s:Envelope>"

-- A request as a client sends it, up to the name.
abbrev onvif_request : Bytes
onvif_request =
    codes "POST /onvif/device_service HTTP/1.1"
    ++ (crlf
        ++ (crlf ++ codes "<s:Envelope><s:Header><Security mustUnderstand=\"1\"><UsernameToken>"))

onvif_request_security :
    (has_ws_security onvif_request ≡ true)
    × (occurs (codes "<Username>") onvif_request ≡ false)
    × (occurs (codes "<wsse:Username>") onvif_request ≡ false)
unfolding find_str has_prefix
onvif_request_security = (refl, refl, refl)

auth_check_onvif_request-token_example :
    auth_check_onvif_request (naming onvif_request (codes "a") behind_name) config remote
    ≡ some success
auth_check_onvif_request-token_example =
    auth_check_onvif_request-token onvif_request behind_name config remote onvif_request_security.0
      onvif_request_security.1 onvif_request_security.2 (refl, tt) (ground arith)
