-- ===== src/HttpRouter/Setup.antt =====
-- Initialisation and clean-up of the router in src/modules/http/http_router.c, and its flag.
use strero.Prelude.{
  ◌≡◌, refl, true, false, Option, none, some, List, [], ◌∷◌, arith, Bool-cases, inl, inr,
}
use strero.HttpRouter.{
  Router, Request, http_router_init, http_router_cleanup, add_route, http_router_register_route,
  register_each, http_router_register_routes,
}
use strero.HttpRouter.Table.{IsValid}

module _ {W : Type 0} where
  pub http_router_init-IsValid : {r : Router W} → IsValid r → IsValid (http_router_init r)
  unfolding http_router_init
  http_router_init-IsValid {r} v = elim (Bool-cases r.router_initialized) [
    | inl ready ↦ simp ready v
    | inr not_ready ↦
        simp not_ready
          (record { bounded = omega arith; distinct = tt; empty_before_init = λ _. refl })
  ]

  pub router_initialized-http_router_init :
      (r : Router W) → (http_router_init r).router_initialized ≡ true
  unfolding http_router_init
  router_initialized-http_router_init r = ground arith

  pub http_router_cleanup-empty :
      (r : Router W) → http_router_cleanup r ≡ record { routes = []; router_initialized = false }
  unfolding http_router_cleanup
  http_router_cleanup-empty r = refl

  pub http_router_cleanup-IsValid : (r : Router W) → IsValid (http_router_cleanup r)
  unfolding http_router_cleanup
  http_router_cleanup-IsValid r = record {
    bounded = omega arith;
    distinct = tt;
    empty_before_init = λ _. refl;
  }

  router_initialized-register_each :
      (qs : List (Request W)) (r : Router W)
      → (register_each qs r).1.router_initialized ≡ r.router_initialized
  unfolding register_each http_router_register_route add_route
  router_initialized-register_each [] r = refl
  router_initialized-register_each (q ∷ qs) r =
      ground (arith, router_initialized-register_each qs (http_router_register_route q r).1)

  -- Registrations leave the flag alone.
  pub router_initialized-http_router_register_routes :
      (qs : Option (List (Request W))) (r : Router W)
      → (http_router_register_routes qs r).1.router_initialized ≡ r.router_initialized
  unfolding http_router_register_routes
  router_initialized-http_router_register_routes none r = refl
  router_initialized-http_router_register_routes (some qs) r = router_initialized-register_each qs r
