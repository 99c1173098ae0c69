-- ===== src/HttpServer/Examples.antt =====
-- The request handling of src/modules/http/http_module.c with one route and clients with and without
-- credentials.
use strero.Prelude.{
  ℕ, ◌≤◌, ◌≡◌, ◌⊎◌, refl, true, false, none, some, List, [], ◌∷◌, ◌++◌, take, length, length-take,
  Bytes, codes, find_str, has_prefix, str_eq, pos, arith,
}
use strero.Auth.Basic.{AuthConfig, crlf, extract_auth_header}
use strero.Auth.Check.{ClientInfo, auth_is_required}
use strero.HttpRouter.{Router, Route, get, http_method_to_string, find_route, method_eq}
use strero.HttpRouter.Dispatch.{request_line, target_of}
use strero.HttpServer.{Network, Answers, request_max, read_request, serve, is_onvif_request}
use strero.HttpServer.Reading.{read_request_bounded}
use strero.HttpServer.Gate.{serve_protected, serve_onvif_bypass}

-- `recv` hands out what it can of one piece of a stream, and ends the stream with it.
abbrev network : Network (List Bytes)
network = record { recv = receive; atoi = λ _. pos 40000 }
  where
    receive : ℕ → List Bytes → Bytes × List Bytes
    receive n [] = ([], [])
    receive n (piece ∷ pieces) = (take n piece, pieces)

receive_bounded : (n : ℕ) (s : List Bytes) → length (network.recv n s).0 ≤ n
receive_bounded n [] = omega arith
receive_bounded n (piece ∷ pieces) = omega (arith, length-take n piece)

abbrev pieces : List Bytes
pieces =
    (codes "POST /s HTTP/1.1" ++ crlf ++ codes "Content-Length: 40000" ++ crlf ++ crlf)
    ∷ codes "body"
    ∷ []

read_request_bounded_example :
    (result : Bytes × List Bytes) × (read_request network pieces ≡ some result)
    × (length result.0 ≤ request_max)
read_request_bounded_example = read_request_bounded network pieces receive_bounded

-- The answers are logged.
abbrev answers : Answers (List ℕ)
answers = record {
  unauthorized = λ socket w. 401 ∷ w;
  forbidden = λ socket w. 403 ∷ w;
  not_found = λ socket w. 404 ∷ w;
  server_error = λ socket w. 500 ∷ w;
  close = λ socket w. 0 ∷ w;
}

abbrev config : AuthConfig
config = record {
  enabled = true;
  localhost_bypass = true;
  username = codes "a";
  password = codes "b";
}

-- 10.0.0.1
abbrev remote : ClientInfo
remote = record { socket_fd = 7; addr = 0x0a00_0001; is_localhost = false }

abbrev status : Route (List ℕ)
status = record {
  path = codes "/s";
  method = get;
  handler = λ socket request w. 200 ∷ w;
  module_name = codes "http";
  description = none;
}

abbrev router : Router (List ℕ)
router = record { routes = status ∷ []; router_initialized = true }

must : auth_is_required config remote ≡ true
unfolding auth_is_required
must = refl

abbrev anonymous : Bytes
anonymous = codes "GET /s HTTP/1.1" ++ crlf ++ crlf

no_header : extract_auth_header anonymous ≡ none
unfolding extract_auth_header find_str has_prefix
no_header = refl

no_onvif : is_onvif_request anonymous ≡ false
unfolding find_str has_prefix
no_onvif = refl

serve_protected_example :
    (serve answers config router anonymous 7 (some remote) [] ≡ some (401 ∷ []))
    ⊎ (serve answers config router anonymous 7 (some remote) [] ≡ some (403 ∷ []))
    ⊎ (serve answers config router anonymous 7 (some remote) [] ≡ none)
serve_protected_example =
    serve_protected answers config router anonymous 7 remote [] must no_onvif
      (λ header found. ground (arith, no_header))

abbrev bypass : Bytes
bypass = request_line get (target_of (codes "/s") (some (codes "/onvif/"))) (codes "HTTP/1.1")

holds_onvif : is_onvif_request bypass ≡ true
unfolding find_str has_prefix http_method_to_string
holds_onvif = refl

status_found : find_route get (codes "/s") router.routes ≡ some status
unfolding find_route method_eq str_eq
status_found = refl

serve_onvif_bypass_example : serve answers config router bypass 7 (some remote) [] ≡ some (200 ∷ [])
serve_onvif_bypass_example =
    serve_onvif_bypass answers config router get (codes "/s") (some (codes "/onvif/"))
      (codes "HTTP/1.1") 7 remote [] status refl refl
      (refl, (refl, (refl, (refl, (refl, (refl, (refl, (refl, (refl, (refl, tt))))))))))
      (refl, (refl, tt)) (ground arith) holds_onvif status_found
