-- ===== src/HttpRouter.antt =====
-- The route table and the dispatcher of src/modules/http/http_router.c.
--
-- A handler is a function of the socket and the request on the world, which holds everything
-- outside the router. A C string is the list of its bytes, and NULL is `none`.
pub mod Table
pub mod Dispatch
pub mod Setup
mod Examples
use strero.Prelude.{
  ℕ, zero, suc, ◌+◌, ◌-◌, Bool, true, false, not, ◌&&◌, ◌||◌, Option, none, some, List, [], ◌∷◌,
  ◌++◌, leb, ltb, ◌==◌, if◌then◌else◌, length, get_elem?, take, drop, Bytes, codes, str_eq,
  find_char, has_prefix, ℤ, pos, minus_one, is_negative,
}

-- `invalid` is HTTP_METHOD_COUNT and every number above it.
pub data Method : Type 0 where
  get post put delete invalid : Method

unfoldable pub method_eq : Method → Method → Bool
method_eq get get = true
method_eq post post = true
method_eq put put = true
method_eq delete delete = true
method_eq invalid invalid = true
method_eq _ _ = false

abbrev pub is_valid_method : Method → Bool
is_valid_method invalid = false
is_valid_method _ = true

abbrev pub max_routes : ℕ
max_routes = 128

abbrev pub path_buffer_size : ℕ
path_buffer_size = 256

abbrev pub Handler : Type 0 → Type 0
Handler W = ℕ → Bytes → W → W

pub record Route (W : Type 0) : Type 0 where
  pub path : Bytes
  pub method : Method
  pub handler : Handler W
  pub module_name : Bytes
  pub description : Option Bytes

-- The arguments of a registration, where NULL is possible.
pub record Request (W : Type 0) : Type 0 where
  pub path : Option Bytes
  pub method : Method
  pub handler : Option (Handler W)
  pub module_name : Option Bytes
  pub description : Option Bytes

-- `routes` is the array up to `route_count`.
pub record Router (W : Type 0) : Type 0 where
  pub routes : List (Route W)
  pub router_initialized : Bool

module _ {W : Type 0} where
  pub http_router_init : Router W → Router W
  http_router_init r =
      if r.router_initialized then r else record { routes = []; router_initialized = true }

  pub http_router_cleanup : Router W → Router W
  http_router_cleanup r = record { routes = []; router_initialized = false }

  -- The test of both loops over the routes.
  abbrev pub matches : Method → Bytes → Route W → Bool
  matches method path r = method_eq r.method method && str_eq r.path path

  pub has_route : Method → Bytes → List (Route W) → Bool
  has_route method path [] = false
  has_route method path (r ∷ rs) = matches method path r || has_route method path rs

  -- The first route of the same method and path gets the new handler and texts.
  pub override : Route W → List (Route W) → List (Route W)
  override new [] = []
  override new (r ∷ rs) =
      let rest = override new rs in
      if matches new.method new.path r
      then (record r {
        handler = new.handler;
        module_name = new.module_name;
        description = new.description;
      })
        ∷ rs
      else r ∷ rest

  pub add_route : Route W → Router W → ℤ × Router W
  add_route new r =
      if leb max_routes (length r.routes)
      then (minus_one, r)
      else if not (is_valid_method new.method)
      then (minus_one, r)
      else if has_route new.method new.path r.routes
      then (pos 0, record r { routes = override new r.routes })
      else (pos 0, record r { routes = r.routes ++ new ∷ [] })

  abbrev pub checked : Request W → Option (Route W)
  checked q = elim q.path [
    | none ↦ none
    | some path ↦ elim q.handler [
      | none ↦ none
      | some handler ↦ elim q.module_name [
        | none ↦ none
        | some name ↦ some (record {
          path = path;
          method = q.method;
          handler = handler;
          module_name = name;
          description = q.description;
        })
      ]
    ]
  ]

  pub http_router_register_route : Request W → Router W → ℤ × Router W
  http_router_register_route q r =
      if not r.router_initialized
      then (minus_one, r)
      else elim (checked q) [ none ↦ (minus_one, r) | some new ↦ add_route new r ]

  -- The loop of `http_router_register_routes`: it stops at the first refusal.
  pub register_each : List (Request W) → Router W → ℤ × Router W
  register_each [] r = (pos 0, r)
  register_each (q ∷ qs) r =
      let (ret, r') = http_router_register_route q r in
      let rest = register_each qs r' in if is_negative ret then (ret, r') else rest

  pub http_router_register_routes : Option (List (Request W)) → Router W → ℤ × Router W
  http_router_register_routes none r = (minus_one, r)
  http_router_register_routes (some qs) r = register_each qs r

pub extract_method : Bytes → Method
extract_method request =
    if has_prefix (codes "GET ") request
    then get
    else if has_prefix (codes "POST ") request
    then post
    else if has_prefix (codes "PUT ") request
    then put
    else if has_prefix (codes "DELETE ") request
    then delete
    else invalid

-- From the character behind the first blank on: up to the next blank, without the query.
path_from : Bytes → ℕ → Option Bytes
path_from start buffer_size = elim (find_char b' ' start) [
  | none ↦ none
  | some (before_end, _) ↦
      if leb buffer_size (length before_end) then none else elim (find_char b'?' start) [
        | none ↦ some (take (length before_end) start)
        | some (before_query, _) ↦
            if ltb (length before_query) (length before_end)
            then some (take (length before_query) start)
            else some (take (length before_end) start)
      ]
]

-- `none` is -1.
pub extract_path : Bytes → ℕ → Option Bytes
extract_path request buffer_size = elim (find_char b' ' request) [
  | none ↦ none
  | some (_, from_blank) ↦ path_from (drop 1 from_blank) buffer_size
]

module _ {W : Type 0} where
  unfoldable pub find_route : Method → Bytes → List (Route W) → Option (Route W)
  find_route method path [] = none
  find_route method path (r ∷ rs) =
      if matches method path r then some r else find_route method path rs

  -- `none` is a NULL request.
  pub http_router_dispatch : Option Bytes → ℕ → Router W → W → ℤ × W
  http_router_dispatch none client_socket r w = (minus_one, w)
  http_router_dispatch (some request) client_socket r w =
      let method = extract_method request in
      if not r.router_initialized
      then (minus_one, w)
      else if not (is_valid_method method)
      then (minus_one, w)
      else elim (extract_path request path_buffer_size) [
        | none ↦ (minus_one, w)
        | some path ↦ elim (find_route method path r.routes) [
          | none ↦ (minus_one, w)
          | some route ↦ (pos 0, route.handler client_socket request w)
        ]
      ]

  pub http_router_get_route_count : Router W → ℕ
  http_router_get_route_count r = length r.routes

  pub http_router_get_route : ℕ → Router W → Option (Route W)
  http_router_get_route index r =
      if leb (length r.routes) index then none else get_elem? r.routes index

unfoldable pub http_method_to_string : Method → Bytes
http_method_to_string get = codes "GET"
http_method_to_string post = codes "POST"
http_method_to_string put = codes "PUT"
http_method_to_string delete = codes "DELETE"
http_method_to_string invalid = codes "UNKNOWN"

pub http_method_from_string : Option Bytes → Method
http_method_from_string none = invalid
http_method_from_string (some s) =
    if str_eq s (codes "GET")
    then get
    else if str_eq s (codes "POST")
    then post
    else if str_eq s (codes "PUT")
    then put
    else if str_eq s (codes "DELETE")
    then delete
    else invalid
