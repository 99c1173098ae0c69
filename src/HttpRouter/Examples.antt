-- ===== src/HttpRouter/Examples.antt =====
-- The router of src/modules/http/http_router.c with one route, on handlers that log their socket.
use strero.Prelude.{
  ℕ, ◌≡◌, refl, true, false, none, some, List, [], ◌∷◌, length, codes, str_eq, if◌then◌else◌, pos,
  minus_one, arith,
}
use strero.HttpRouter.{
  method_eq, get, Route, Request, Router, matches, has_route, override, add_route,
  http_router_register_route, http_router_init, http_router_get_route, find_route,
  http_router_dispatch, http_router_get_route_count,
}
use strero.HttpRouter.Table.{IsValid, find_route-register}
use strero.HttpRouter.Dispatch.{request_line, target_of, http_router_dispatch-request_line}

abbrev status : Route (List ℕ)
status = record {
  path = codes "/s";
  method = get;
  handler = λ socket request w. socket ∷ w;
  module_name = codes "http";
  description = none;
}

abbrev router : Router (List ℕ)
router = record { routes = status ∷ []; router_initialized = true }

-- A second handler for the path and method of `status`.
abbrev again : Request (List ℕ)
again = record {
  path = some (codes "/s");
  method = get;
  handler = some (λ socket request w. w);
  module_name = some (codes "osd");
  description = none;
}

abbrev new_status : Route (List ℕ)
new_status = record status { handler = λ socket request w. w; module_name = codes "osd" }

init_test :
    http_router_init (record router { router_initialized = false }) ≡ record router { routes = [] }
unfolding http_router_init
init_test = refl

get_route_test : http_router_get_route 1 router ≡ none
unfolding http_router_get_route
get_route_test = refl

count_test : http_router_get_route_count router ≡ 1
unfolding http_router_get_route_count
count_test = refl

again_ok : (http_router_register_route again router).0 ≡ pos 0
unfolding http_router_register_route add_route has_route override str_eq method_eq
again_ok = refl

find_route-register_example :
    let r' = (http_router_register_route again router).1 in
    (find_route get (codes "/s") r'.routes ≡ (
      if matches get (codes "/s") new_status
      then some new_status
      else find_route get (codes "/s") (status ∷ [])))
    × (length r'.routes ≡ (if has_route get (codes "/s") (status ∷ []) then 1 else 2))
find_route-register_example =
    find_route-register router again new_status get (codes "/s") refl again_ok

router-IsValid : IsValid router
unfolding has_route
router-IsValid = record {
  bounded = ground arith;
  distinct = (refl, tt);
  empty_before_init = λ h. cc;
}

http_router_dispatch-request_line_example :
    let request =
      request_line get (target_of (codes "/s") (some (codes "a=1"))) (codes "HTTP/1.1") in
    http_router_dispatch (some request) 7 router []
    ≡ (elim (find_route get (codes "/s") (status ∷ [])) [
      | none ↦ (minus_one, [])
      | some route ↦ (pos 0, route.handler 7 request [])
    ])
http_router_dispatch-request_line_example =
    http_router_dispatch-request_line get (codes "/s") (some (codes "a=1")) (codes "HTTP/1.1") 7
      router [] refl refl (refl, (refl, (refl, (refl, (refl, (refl, tt)))))) (refl, (refl, tt))
      (ground arith)
