-- ===== src/HttpServer.antt =====
-- One connection of the HTTP server thread in src/modules/http/http_module.c: the reading of the
-- request, the authentication gate, and the dispatch.
--
-- `recv`, `atoi` and the answers that are sent are parameters; the socket's state is `S`, and `W` is
-- the world that handlers and answers change.
pub mod Reading
pub mod Gate
pub mod Lifecycle
mod Examples
use strero.Prelude.{
  ℕ, zero, suc, ◌+◌, ◌-◌, Bool, true, false, not, ◌&&◌, Option, none, some, List, [], ◌∷◌, ltb,
  ◌==◌, if◌then◌else◌, length, drop, ◌++◌, Bytes, codes, find_str, occurs, c_string, ℤ, pos, negsuc,
  is_zero,
}
use strero.Auth.Basic.{AuthResult, success, required, invalid, error, AuthConfig, crlf}
use strero.Auth.Check.{ClientInfo, auth_check_http_request}
use strero.HttpRouter.{Router, http_router_dispatch}

-- sizeof(request) - 1
abbrev pub request_max : ℕ
request_max = 8191

-- `recv(socket, buffer, size, 0)`: the bytes received, none of them at the end of the stream or on an
-- error. `atoi` is the one of the C library.
pub record Network (S : Type 0) : Type 0 where
  pub recv : ℕ → S → Bytes × S
  pub atoi : Bytes → ℤ

abbrev pub below : ℕ → ℤ → Bool
below n (pos m) = ltb n m
below n (negsuc _) = false

module _ {S : Type 0} (env : Network S) where
  -- The loop over the body; `none` means that the fuel ran out.
  pub read_body : ℕ → ℤ → ℕ → Bytes → S → Option (Bytes × S)
  read_body zero content_length body_received request s = none
  read_body (suc fuel) content_length body_received request s =
      let (chunk, s') = env.recv (request_max - length request) s in
      let rest =
        read_body fuel content_length (body_received + length chunk) (request ++ chunk) s' in
      if below body_received content_length && ltb (length request) request_max
      then if length chunk == 0 then some (request, s') else rest
      else some (request, s)

  -- The whole request, which is empty if nothing is received.
  pub read_request : S → Option (Bytes × S)
  read_request s =
      let (first, s') = env.recv request_max s in
      if length first == 0
      then some ([], s')
      else elim (find_str (codes "Content-Length: ") (c_string first)) [
        | none ↦ some (first, s')
        | some (_, header) ↦ elim (find_str (crlf ++ crlf) (c_string first)) [
          | none ↦ some (first, s')
          | some (headers, _) ↦
              read_body request_max (env.atoi (drop 16 header))
                (length first - (length headers + 4)) first s'
        ]
      ]

-- The answers: 401, 403, 404 and 500 on a socket, and `close`.
pub record Answers (W : Type 0) : Type 0 where
  pub unauthorized : ℕ → W → W
  pub forbidden : ℕ → W → W
  pub not_found : ℕ → W → W
  pub server_error : ℕ → W → W
  pub close : ℕ → W → W

abbrev pub is_onvif_request : Bytes → Bool
is_onvif_request request = occurs (codes "/onvif/") request

module _ {W : Type 0} (out : Answers W) where
  -- `http_router_dispatch`, or 404.
  abbrev pub route : Bytes → ℕ → Router W → W → W
  route request socket router w =
      let (ret, w') = http_router_dispatch (some request) socket router w in
      if is_zero ret then w' else out.not_found socket w'

  pub answer : AuthResult → Bytes → ℕ → Router W → W → W
  answer required request socket router w = out.unauthorized socket w
  answer invalid request socket router w = out.forbidden socket w
  answer success request socket router w = route request socket router w
  answer error request socket router w = out.server_error socket w

  -- What follows the reading of a request: `client` is what `auth_get_client_info` returns, and the
  -- result `none` is a fault in the authentication.
  pub serve : AuthConfig → Router W → Bytes → ℕ → Option ClientInfo → W → Option W
  serve config router request socket none w = some (out.close socket w)
  serve config router request socket (some client) w =
      if is_onvif_request request
      then some (answer success request socket router w)
      else elim (auth_check_http_request request config client) [
        | none ↦ none
        | some result ↦ some (answer result request socket router w)
      ]

  -- One round of the accept loop after the request is read. The string ends at its first zero byte.
  pub serve_received : AuthConfig → Router W → Bytes → ℕ → Option ClientInfo → W → Option W
  serve_received config router received socket client w =
      if length received == 0
      then some (out.close socket w)
      else serve config router (c_string received) socket client w
