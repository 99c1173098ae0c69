-- ===== src/HttpServer/Gate.antt =====
-- Which requests reach a handler through the gate of src/modules/http/http_module.c.
use strero.Prelude.{
  ℕ, ◌<◌, ◌≡◌, ◌≢◌, ◌⊎◌, true, false, Option, none, some, Bytes, Lacks, arith, inl, inr,
  Option-cases, length,
}
use strero.Auth.Basic.{
  success, required, invalid, error, AuthConfig, credentials, auth_parse_basic_header,
  extract_auth_header,
}
use strero.Auth.Check.{ClientInfo, auth_is_required, auth_check_http_request}
use strero.Auth.Check.Access.{auth_check_http_request_lem, auth_check_http_request_no_error}
use strero.HttpRouter.{Method, Router, Route, is_valid_method, find_route, path_buffer_size}
use strero.HttpRouter.Dispatch.{request_line, target_of, http_router_dispatch-request_line}
use strero.HttpServer.{Answers, answer, route, serve, is_onvif_request}

module _ {W : Type 0} (out : Answers W) (config : AuthConfig) (router : Router W) where
  -- A client that must authenticate, with a request that does not hold "/onvif/" and whose
  -- Authorization header, if there is one, does not parse to the configured user name and password,
  -- reaches no handler: it is answered 401 or 403, or parsing its header faults.
  pub serve_protected :
      (request : Bytes) (socket : ℕ) (client : ClientInfo) (w : W)
      → auth_is_required config client ≡ true
      → is_onvif_request request ≡ false
      → ((header : Bytes)
          → extract_auth_header request ≡ some header
          → auth_parse_basic_header header ≢ credentials config.username config.password)
      → (serve out config router request socket (some client) w ≡ some (out.unauthorized socket w))
        ⊎ (serve out config router request socket (some client) w ≡ some (out.forbidden socket w))
        ⊎ (serve out config router request socket (some client) w ≡ none)
  unfolding serve answer
  serve_protected request socket client w must plain wrong =
      elim (Option-cases (auth_check_http_request request config client)) [
        | inl faults ↦ inr (inr (ground arith))
        | inr (success, e) ↦
            (let (header, found, right) =
                (auth_check_http_request_lem request config client must).0.0 e in
              absurd (wrong header found right))
        | inr (required, e) ↦ inl (ground arith)
        | inr (invalid, e) ↦ inr (inl (ground arith))
        | inr (error, e) ↦ absurd (auth_check_http_request_no_error request config client e)
      ]

  -- A client with the configured credentials gets what `http_router_dispatch` does, or 404.
  pub serve_authenticated :
      (request header : Bytes) (socket : ℕ) (client : ClientInfo) (w : W)
      → auth_is_required config client ≡ true
      → extract_auth_header request ≡ some header
      → auth_parse_basic_header header ≡ credentials config.username config.password
      → serve out config router request socket (some client) w
        ≡ some (route out request socket router w)
  unfolding serve answer
  serve_authenticated request header socket client w must found right =
      ground
        (arith, (auth_check_http_request_lem request config client must).0.1 (header, found, right))

  -- A well-formed request that holds "/onvif/" anywhere, as in its query, reaches the handler of its
  -- path whatever credentials it has, also where authentication is required.
  pub serve_onvif_bypass :
      (m : Method) (path : Bytes) (query : Option Bytes) (rest : Bytes) (socket : ℕ)
      (client : ClientInfo) (w : W) (found : Route W)
      → router.router_initialized ≡ true
      → is_valid_method m ≡ true
      → Lacks b' ' (target_of path query)
      → Lacks b'?' path
      → length (target_of path query) < path_buffer_size
      → is_onvif_request (request_line m (target_of path query) rest) ≡ true
      → find_route m path router.routes ≡ some found
      → serve out config router (request_line m (target_of path query) rest) socket (some client) w
        ≡ some (found.handler socket (request_line m (target_of path query) rest) w)
  unfolding serve answer
  serve_onvif_bypass m path query rest socket client w found ready valid blank mark fits onvif at =
      ground (
        arith,
        http_router_dispatch-request_line m path query rest socket router w ready valid blank mark
            fits,
      )
