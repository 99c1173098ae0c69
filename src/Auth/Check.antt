-- ===== src/Auth/Check.antt =====
-- The checks of a request in src/auth_utils.c: who must authenticate, and what HTTP, RTSP and ONVIF
-- requests have to show.
pub mod Access
pub mod WsSecurity
use strero.Prelude.{
  ℕ, ◌+◌, ◌-◌, ◌/◌, ◌^◌, Bool, true, false, not, ◌&&◌, ◌||◌, Option, none, some, List, [], ◌∷◌,
  ◌++◌, leb, ltb, ◌==◌, if◌then◌else◌, length, take, drop, Bytes, codes, str_eq, find_str, occurs,
}
use strero.Auth.Basic.{
  AuthResult, success, invalid, AuthConfig, name_size, auth_validate_basic, extract_auth_header,
}

-- `addr` is the IPv4 address in host byte order.
pub record ClientInfo : Type 0 where
  pub socket_fd : ℕ
  pub addr : ℕ
  pub is_localhost : Bool

-- 127.0.0.0/8, or 0.0.0.0
unfoldable pub auth_is_localhost : ℕ → Bool
auth_is_localhost ip = ip / 2 ^ 24 == 127 || ip == 0

-- What `getpeername` finds, and whether `inet_ntop` succeeds, are arguments; `none` is -1.
unfoldable pub auth_get_client_info : ℕ → Option ℕ → Bool → Option ClientInfo
auth_get_client_info socket_fd none ntop_ok = none
auth_get_client_info socket_fd (some ip) ntop_ok =
    if not ntop_ok
    then none
    else some (record { socket_fd = socket_fd; addr = ip; is_localhost = auth_is_localhost ip })

unfoldable pub auth_is_required : AuthConfig → ClientInfo → Bool
auth_is_required config client =
    if not config.enabled
    then false
    else if config.localhost_bypass && client.is_localhost
    then false
    else true

-- `none` is a fault, as in `auth_validate_basic`.
unfoldable pub auth_check_http_request : Bytes → AuthConfig → ClientInfo → Option AuthResult
auth_check_http_request request config client =
    if not (auth_is_required config client)
    then some success
    else auth_validate_basic (extract_auth_header request) config

unfoldable pub auth_check_rtsp_request : Bytes → AuthConfig → ClientInfo → Option AuthResult
auth_check_rtsp_request request config client = auth_check_http_request request config client

-- Of two occurrences in one string, what follows the first, without its tag of the given length.
abbrev pub earlier :
    Option (Bytes × Bytes) → ℕ → Option (Bytes × Bytes) → ℕ → Option (Bytes × Bytes)
earlier none n none m = none
earlier (some a) n none m = some (a.0, drop n a.1)
earlier none n (some b) m = some (b.0, drop m b.1)
earlier (some a) n (some b) m =
    if ltb (length b.0) (length a.0) then some (b.0, drop m b.1) else some (a.0, drop n a.1)

-- The user name; the password is always set to the empty string. `none` is -1.
pub parse_ws_security_token : Bytes → Option Bytes
parse_ws_security_token request =
    elim (earlier (find_str (codes "<Username>") request) 10
      (find_str (codes "<wsse:Username>") request) 15) [
        | none ↦ none
        | some (_, start) ↦
            elim (earlier (find_str (codes "</Username>") start) 0
              (find_str (codes "</wsse:Username>") start) 0) [
                | none ↦ none
                | some (name, _) ↦ some (take (name_size - 1) name)
              ]
      ]

abbrev pub has_ws_security : Bytes → Bool
has_ws_security request =
    (occurs (codes "<Security") request || occurs (codes "<wsse:Security") request)
    && (occurs (codes "<UsernameToken") request || occurs (codes "<wsse:UsernameToken") request)

pub auth_check_onvif_request : Bytes → AuthConfig → ClientInfo → Option AuthResult
auth_check_onvif_request request config client =
    let basic = auth_check_http_request request config client in
    if not (auth_is_required config client)
    then some success
    else if has_ws_security request
    then (elim (parse_ws_security_token request) [
      | none ↦ basic
      | some username ↦ if str_eq username config.username then some success else some invalid
    ])
    else basic
