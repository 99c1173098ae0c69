-- ===== src/HttpServer/Lifecycle/Invariant.antt =====
-- What holds of the HTTP module of src/modules/http/http_module.c after any calls of its lifecycle.
use strero.Prelude.{
  ◌≡◌, ◌⊎◌, refl, true, false, Option, some, List, [], ◌∷◌, if◌then◌else◌, ℤ, pos, minus_one,
  is_negative, arith, Bool-cases, inl, inr,
}
use strero.HttpRouter.{Router, Request, http_router_init, http_router_register_routes}
use strero.HttpRouter.Table.{IsValid, http_router_register_routes-IsValid}
use strero.HttpRouter.Setup.{
  http_router_init-IsValid, http_router_cleanup-IsValid, router_initialized-http_router_init,
  http_router_cleanup-empty, router_initialized-http_router_register_routes,
}
use strero.HttpServer.Lifecycle.{
  HttpConfig, HttpModule, http_module_init, register_tables, http_module_start, thread_opened,
  http_module_stop, http_module_cleanup,
}

module _ {W : Type 0} where
  -- The route table is valid, and the server runs only if the module and the router are initialised.
  pub record IsConsistent (m : HttpModule W) : Type 0 where
    pub table : IsValid m.router
    pub running_initialized : m.running ≡ true → m.initialized ≡ true
    pub running_routed : m.running ≡ true → m.router.router_initialized ≡ true

  register_tables-IsValid :
      (ts : List (List (Request W))) {r : Router W} → IsValid r → IsValid (register_tables ts r).1
  unfolding register_tables
  register_tables-IsValid [] v = v
  register_tables-IsValid (t ∷ ts) {r} v =
      elim (Bool-cases (is_negative (http_router_register_routes (some t) r).0)) [
        | inl refused ↦ rw refused (http_router_cleanup-IsValid _)
        | inr accepted ↦
            rw accepted
              (register_tables-IsValid ts (http_router_register_routes-IsValid (some t) v))
      ]

  -- All tables are registered, or the router is empty.
  register_tables_lem :
      (ts : List (List (Request W))) (r : Router W)
      → r.router_initialized ≡ true
      → let (ret, r') = register_tables ts r in
        if is_negative ret
        then (ret ≡ minus_one) × (r' ≡ record { routes = []; router_initialized = false })
        else (ret ≡ pos 0) × (r'.router_initialized ≡ true)
  unfolding register_tables
  register_tables_lem [] r ready = (refl, ready)
  register_tables_lem (t ∷ ts) r ready =
      elim (Bool-cases (is_negative (http_router_register_routes (some t) r).0)) [
        | inl refused ↦ rw refused (refl, http_router_cleanup-empty _)
        | inr accepted ↦ rw accepted (
            register_tables_lem ts (http_router_register_routes (some t) r).1
              (ground (arith, router_initialized-http_router_register_routes (some t) r)))
      ]

  start-IsConsistent :
      (tables : List (List (Request W))) (created : ℤ) {m : HttpModule W}
      → IsConsistent m
      → IsConsistent (http_module_start tables created m).1
  unfolding http_module_start
  start-IsConsistent tables created {m} v = ground (
    arith,
    register_tables-IsValid tables (http_router_init-IsValid v.table),
    register_tables_lem tables (http_router_init m.router)
        (router_initialized-http_router_init m.router),
  )

  stop-IsConsistent :
      (joined : ℤ) {m : HttpModule W} → IsConsistent m → IsConsistent (http_module_stop joined m).1
  unfolding http_module_stop
  stop-IsConsistent joined {m} v = ground (arith, http_router_cleanup-IsValid m.router)

  cleanup-IsConsistent :
      (joined : ℤ) {m : HttpModule W}
      → IsConsistent m
      → IsConsistent (http_module_cleanup joined m).1
  unfolding http_module_cleanup
  cleanup-IsConsistent joined {m} v = ground (arith, stop-IsConsistent joined v)

  init-IsConsistent :
      (config : Option HttpConfig) {m : HttpModule W}
      → IsConsistent m
      → IsConsistent (http_module_init config m).1
  unfolding http_module_init
  init-IsConsistent config {m} v = ground arith

  opened-IsConsistent :
      (socket : ℤ) {m : HttpModule W} → IsConsistent m → IsConsistent (thread_opened socket m)
  unfolding thread_opened
  opened-IsConsistent socket {m} v = ground arith

-- A call of the module's lifecycle, a step of its thread, or another module's routes.
pub data Call (W : Type 0) : Type 0 where
  init : Option HttpConfig → Call W
  start : List (List (Request W)) → ℤ → Call W
  opened : ℤ → Call W
  register : Option (List (Request W)) → Call W
  stop cleanup : ℤ → Call W

module _ {W : Type 0} where
  pub step : Call W → HttpModule W → HttpModule W
  step (init config) m = (http_module_init config m).1
  step (start tables created) m = (http_module_start tables created m).1
  step (opened socket) m = thread_opened socket m
  step (register qs) m = record m { router = (http_router_register_routes qs m.router).1 }
  step (stop joined) m = (http_module_stop joined m).1
  step (cleanup joined) m = (http_module_cleanup joined m).1

  step-IsConsistent : (c : Call W) {m : HttpModule W} → IsConsistent m → IsConsistent (step c m)
  unfolding step
  step-IsConsistent (init config) v = init-IsConsistent config v
  step-IsConsistent (start tables created) v = start-IsConsistent tables created v
  step-IsConsistent (opened socket) v = opened-IsConsistent socket v
  step-IsConsistent (register qs) {m} v = ground (
    arith,
    http_router_register_routes-IsValid qs v.table,
    router_initialized-http_router_register_routes qs m.router,
  )
  step-IsConsistent (stop joined) v = stop-IsConsistent joined v
  step-IsConsistent (cleanup joined) v = cleanup-IsConsistent joined v

  pub run : List (Call W) → HttpModule W → HttpModule W
  run [] m = m
  run (c ∷ cs) m = run cs (step c m)

  -- Whatever the order of init, start, stop and cleanup, of the thread's steps and of route
  -- registrations, the route table stays valid, and the server is only marked as running while
  -- the module and the router are initialised.
  pub run-IsConsistent :
      (cs : List (Call W)) (m : HttpModule W) → IsConsistent m → IsConsistent (run cs m)
  unfolding run
  run-IsConsistent [] m v = v
  run-IsConsistent (c ∷ cs) m v = run-IsConsistent cs (step c m) (step-IsConsistent c v)

  -- A start of an initialised and enabled module that does not run, whose thread can be created:
  -- either every route table is accepted, and it returns 0 with the server running on an
  -- initialised router; or it returns -1 with the server not running and the router emptied.
  pub http_module_start_lem :
      (tables : List (List (Request W))) (m : HttpModule W)
      → m.initialized ≡ true
      → m.running ≡ false
      → m.config.enabled ≡ true
      → let (r, m') = http_module_start tables (pos 0) m in
        ((r ≡ pos 0) × (m'.running ≡ true) × (m'.router.router_initialized ≡ true))
        ⊎ ((r ≡ minus_one)
            × (m'.running ≡ false)
            × (m'.router ≡ record { routes = []; router_initialized = false }))
  unfolding http_module_start
  http_module_start_lem tables m i r e =
      elim (Bool-cases (is_negative (register_tables tables (http_router_init m.router)).0)) [
        | inl refused ↦ inr (ground (arith, found))
        | inr accepted ↦ inl (ground (arith, found))
      ]
    where
      found :
          let (ret, r') = register_tables tables (http_router_init m.router) in
          if is_negative ret
          then (ret ≡ minus_one) × (r' ≡ record { routes = []; router_initialized = false })
          else (ret ≡ pos 0) × (r'.router_initialized ≡ true)
      found =
          register_tables_lem tables (http_router_init m.router)
            (router_initialized-http_router_init m.router)
