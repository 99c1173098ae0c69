-- ===== src/Auth/Check/Access.antt =====
-- Who gets access by the checks of src/auth_utils.c.
use strero.Prelude.{
  ℕ, ◌≤◌, ◌<◌, ◌≡◌, ◌≢◌, ◌⊎◌, ◌↔◌, refl, true, false, some, [], Bytes, arith, Option-cases, inl,
  inr,
}
use strero.Auth.Basic.{
  error, success, AuthConfig, credentials, auth_parse_basic_header, extract_auth_header,
}
use strero.Auth.Basic.Soundness.{auth_validate_basic_lem, auth_validate_basic_no_error}
use strero.Auth.Check.{
  ClientInfo, auth_is_localhost, auth_get_client_info, auth_is_required, auth_check_http_request,
  auth_check_rtsp_request,
}

-- Authentication is skipped exactly if it is disabled, or for a client whose address is in
-- 127.0.0.0/8 or is 0.0.0.0 while the bypass for localhost is on.
pub auth_is_required_lem :
    (config : AuthConfig) (fd ip : ℕ) (client : ClientInfo)
    → auth_get_client_info fd (some ip) true ≡ some client
    → auth_is_required config client ≡ false ↔ (
        (config.enabled ≡ false)
        ⊎ ((config.localhost_bypass ≡ true) × ((0x7f00_0000 ≤ ip) × (ip < 0x8000_0000) ⊎ (ip ≡ 0))))
unfolding auth_is_required auth_get_client_info auth_is_localhost
auth_is_required_lem config fd ip client h = (ground arith, ground arith)

-- A client that must authenticate gets through HTTP or RTSP exactly if the request has an
-- Authorization header that parses to the configured user name and password.
pub auth_check_http_request_lem :
    (request : Bytes) (config : AuthConfig) (client : ClientInfo)
    → auth_is_required config client ≡ true
    → (auth_check_http_request request config client ≡ some success ↔ (
        (header : Bytes) × (extract_auth_header request ≡ some header)
        × (auth_parse_basic_header header ≡ credentials config.username config.password)))
      × (auth_check_rtsp_request request config client
          ≡ auth_check_http_request request config client)
unfolding auth_check_http_request auth_check_rtsp_request
auth_check_http_request_lem request config client must =
    ((λ ok. there ok, λ (h, e, p). back h e p), refl)
  where
    there :
        auth_check_http_request request config client ≡ some success
        → (header : Bytes) × (extract_auth_header request ≡ some header)
          × (auth_parse_basic_header header ≡ credentials config.username config.password)
    there ok = elim (Option-cases (extract_auth_header request)) [
      | inl e ↦ ground (arith, (auth_validate_basic_lem [] config).0)
      | inr (header, e) ↦ (header, e, (auth_validate_basic_lem header config).1.0 (ground arith))
    ]

    back :
        (header : Bytes)
        → extract_auth_header request ≡ some header
        → auth_parse_basic_header header ≡ credentials config.username config.password
        → auth_check_http_request request config client ≡ some success
    back header e p = ground (arith, (auth_validate_basic_lem header config).1.1 p)

pub auth_check_http_request_no_error :
    (request : Bytes) (config : AuthConfig) (client : ClientInfo)
    → auth_check_http_request request config client ≢ some error
unfolding auth_check_http_request
auth_check_http_request_no_error request config client =
    ground (arith, auth_validate_basic_no_error (extract_auth_header request) config)
