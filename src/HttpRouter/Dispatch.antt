-- ===== src/HttpRouter/Dispatch.antt =====
-- What src/modules/http/http_router.c makes of a request line.
use strero.Prelude.{
  ℕ, ◌<◌, ◌≡◌, refl, ap, ◌∙◌, true, Option, none, some, ◌∷◌, ◌++◌, append_assoc, length,
  length-append, Bytes, str_eq, Lacks, find_char, find_char-append, find_char_skip, Option-cases,
  has_prefix, take, take-append_length, pos, minus_one, arith, inl, inr,
}
use strero.HttpRouter.{
  Method, get, post, put, delete, invalid, Router, path_buffer_size, extract_method, extract_path,
  path_from, find_route, http_router_dispatch, http_method_to_string, http_method_from_string,
  is_valid_method,
}

-- A request line: the method's name, a blank, the target, a blank, and the rest of the request.
abbrev pub request_line : Method → Bytes → Bytes → Bytes
request_line m target rest = http_method_to_string m ++ (b' ' ∷ (target ++ (b' ' ∷ rest)))

extract_method-request_line :
    (m : Method) (target rest : Bytes)
    → is_valid_method m ≡ true
    → extract_method (request_line m target rest) ≡ m
unfolding extract_method http_method_to_string has_prefix
extract_method-request_line get target rest h = refl
extract_method-request_line post target rest h = refl
extract_method-request_line put target rest h = refl
extract_method-request_line delete target rest h = refl
extract_method-request_line invalid target rest h = cc

path_from-plain :
    (path rest : Bytes) (size : ℕ)
    → Lacks b' ' path
    → Lacks b'?' path
    → length path < size
    → path_from (path ++ (b' ' ∷ rest)) size ≡ some path
unfolding path_from
path_from-plain path rest size blank query fits =
    elim (Option-cases (find_char b'?' (b' ' ∷ rest))) [
      | inl e ↦ ground (
        arith,
        find_char-append b' ' path rest blank,
        find_char_skip b'?' path (b' ' ∷ rest) query,
        take-append_length path (b' ' ∷ rest),
      )
      | inr ((before, from), e) ↦ ground (
        arith,
        find_char-append b' ' path rest blank,
        find_char_skip b'?' path (b' ' ∷ rest) query,
        take-append_length path (b' ' ∷ rest),
        length-append path before,
      )
    ]

path_from-query :
    (path query rest : Bytes) (size : ℕ)
    → Lacks b' ' (path ++ (b'?' ∷ query))
    → Lacks b'?' path
    → length (path ++ (b'?' ∷ query)) < size
    → path_from ((path ++ (b'?' ∷ query)) ++ (b' ' ∷ rest)) size ≡ some path
unfolding path_from
path_from-query path query rest size blank mark fits =
    let end = find_char-append b' ' (path ++ (b'?' ∷ query)) rest blank in
    let regroup = append_assoc path (b'?' ∷ query) (b' ' ∷ rest) in
    let found =
      ap (find_char b'?') regroup ∙ find_char-append b'?' path (query ++ (b' ' ∷ rest)) mark in
    let kept =
      ap (take (length path)) regroup ∙ take-append_length path (b'?' ∷ (query ++ (b' ' ∷ rest))) in
    ground (arith, end, found, kept, length-append path (b'?' ∷ query))

-- The target of a request: a path, with a query behind `?` or without one.
abbrev pub target_of : Bytes → Option Bytes → Bytes
target_of path none = path
target_of path (some query) = path ++ (b'?' ∷ query)

path_from-target :
    (path : Bytes) (query : Option Bytes) (rest : Bytes) (size : ℕ)
    → Lacks b' ' (target_of path query)
    → Lacks b'?' path
    → length (target_of path query) < size
    → path_from (target_of path query ++ (b' ' ∷ rest)) size ≡ some path
path_from-target path none rest size blank mark fits =
    path_from-plain path rest size blank mark fits
path_from-target path (some query) rest size blank mark fits =
    path_from-query path query rest size blank mark fits

http_method_to_string-Lacks : (m : Method) → Lacks b' ' (http_method_to_string m)
unfolding http_method_to_string
http_method_to_string-Lacks get = (refl, (refl, (refl, tt)))
http_method_to_string-Lacks post = (refl, (refl, (refl, (refl, tt))))
http_method_to_string-Lacks put = (refl, (refl, (refl, tt)))
http_method_to_string-Lacks delete = (refl, (refl, (refl, (refl, (refl, (refl, tt))))))
http_method_to_string-Lacks invalid = (refl, (refl, (refl, (refl, (refl, (refl, (refl, tt)))))))

extract_path-request_line :
    (m : Method) (path : Bytes) (query : Option Bytes) (rest : Bytes)
    → Lacks b' ' (target_of path query)
    → Lacks b'?' path
    → length (target_of path query) < path_buffer_size
    → extract_path (request_line m (target_of path query) rest) path_buffer_size ≡ some path
unfolding extract_path
extract_path-request_line m path query rest blank mark fits = ground (
  arith,
  find_char-append b' ' (http_method_to_string m) (target_of path query ++ (b' ' ∷ rest))
      (http_method_to_string-Lacks m),
  path_from-target path query rest path_buffer_size blank mark fits,
)

module _ {W : Type 0} where
  -- A well-formed request, with a query or without one, calls the handler of the route that its
  -- method and path name, with the socket and the whole request, and returns 0; if there is no such
  -- route, it returns -1 and nothing is called.
  pub http_router_dispatch-request_line :
      (m : Method) (path : Bytes) (query : Option Bytes) (rest : Bytes) (socket : ℕ) (r : Router W)
      (w : W)
      → r.router_initialized ≡ true
      → is_valid_method m ≡ true
      → Lacks b' ' (target_of path query)
      → Lacks b'?' path
      → length (target_of path query) < path_buffer_size
      → let request = request_line m (target_of path query) rest in
        http_router_dispatch (some request) socket r w ≡ (elim (find_route m path r.routes) [
          | none ↦ (minus_one, w)
          | some route ↦ (pos 0, route.handler socket request w)
        ])
  unfolding http_router_dispatch
  http_router_dispatch-request_line m path query rest socket r w ready valid blank mark fits =
      ground (
        arith,
        extract_method-request_line m (target_of path query) rest valid,
        extract_path-request_line m path query rest blank mark fits,
      )

  -- A request that does not begin with one of the four method names calls no handler.
  pub http_router_dispatch_invalid :
      (request : Bytes) (socket : ℕ) (r : Router W) (w : W)
      → extract_method request ≡ invalid
      → http_router_dispatch (some request) socket r w ≡ (minus_one, w)
  unfolding http_router_dispatch
  http_router_dispatch_invalid request socket r w e = ground arith

-- Every method is read back from its name.
pub http_method_from_string-http_method_to_string :
    (m : Method) → http_method_from_string (some (http_method_to_string m)) ≡ m
unfolding http_method_from_string http_method_to_string str_eq
http_method_from_string-http_method_to_string get = refl
http_method_from_string-http_method_to_string post = refl
http_method_from_string-http_method_to_string put = refl
http_method_from_string-http_method_to_string delete = refl
http_method_from_string-http_method_to_string invalid = refl
