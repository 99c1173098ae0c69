-- ===== src/HttpServer/Lifecycle.antt =====
-- The lifecycle of the HTTP module in src/modules/http/http_module.c: http_module_init, _start, _stop
-- and _cleanup, with the router that it sets up.
--
-- The route tables that the build registers are an argument, and so are the results of
-- `pthread_create` and `pthread_join`. Closing a socket shows in no state.
pub mod Invariant
mod Examples
use strero.Prelude.{
  ℕ, zero, suc, Bool, true, false, not, Option, none, some, List, [], ◌∷◌, if◌then◌else◌, Bytes, ℤ,
  pos, negsuc, minus_one, is_zero, is_negative,
}
use strero.Auth.Basic.{AuthConfig}
use strero.HttpRouter.{
  Router, Request, http_router_init, http_router_cleanup, http_router_register_routes,
}

-- The fields of `http_module_config_t` that the lifecycle and the gate read.
pub record HttpConfig : Type 0 where
  pub enabled : Bool
  pub auth : AuthConfig

abbrev pub zero_config : HttpConfig
zero_config = record {
  enabled = false;
  auth = record { enabled = false; localhost_bypass = false; username = []; password = [] };
}

-- `g_http_module_state`, the globals for compatibility, and the router's state.
pub record HttpModule (W : Type 0) : Type 0 where
  pub initialized : Bool
  pub running : Bool
  pub config : HttpConfig
  pub thread_should_exit : Bool
  pub server_socket : ℤ
  pub http_server_running : Bool
  pub http_server_socket : ℤ
  pub router : Router W

module _ {W : Type 0} where
  pub http_module_init : Option HttpConfig → HttpModule W → ℤ × HttpModule W
  http_module_init config m = if m.initialized then (pos 0, m) else elim config [
    | none ↦ (minus_one, m)
    | some c ↦ (
      pos 0,
      record m {
        config = c;
        server_socket = minus_one;
        thread_should_exit = false;
        initialized = true;
      },
    )
  ]

  -- One table after the other; the first that is refused empties the router.
  pub register_tables : List (List (Request W)) → Router W → ℤ × Router W
  register_tables [] r = (pos 0, r)
  register_tables (t ∷ ts) r =
      let (ret, r') = http_router_register_routes (some t) r in
      let rest = register_tables ts r' in
      if is_negative ret then (minus_one, http_router_cleanup r') else rest

  -- From `pthread_create` on.
  abbrev launch : ℤ → HttpModule W → ℤ × HttpModule W
  launch created m =
      if not (is_zero created) then (minus_one, record m { thread_should_exit = false }) else (
        pos 0,
        record m {
          thread_should_exit = false;
          running = true;
          http_server_running = true;
          http_server_socket = m.server_socket;
        },
      )

  pub http_module_start : List (List (Request W)) → ℤ → HttpModule W → ℤ × HttpModule W
  http_module_start tables created m =
      let (ret, r) = register_tables tables (http_router_init m.router) in
      if not m.initialized
      then (minus_one, m)
      else if m.running
      then (pos 0, m)
      else if not m.config.enabled
      then (pos 0, m)
      else if is_negative ret
      then (minus_one, record m { router = r })
      else launch created (record m { router = r })

  -- What the thread does to the state when `socket` has returned.
  pub thread_opened : ℤ → HttpModule W → HttpModule W
  thread_opened socket m =
      if is_negative socket
      then record m { server_socket = socket }
      else record m { server_socket = socket; http_server_socket = socket }

  pub http_module_stop : ℤ → HttpModule W → ℤ × HttpModule W
  http_module_stop joined m =
      let signalled = record m {
        thread_should_exit = true;
        server_socket = if is_negative m.server_socket then m.server_socket else minus_one;
      } in
      if not m.running
      then (pos 0, m)
      else if not (is_zero joined)
      then (minus_one, signalled)
      else (
        pos 0,
        record signalled {
          running = false;
          router = http_router_cleanup m.router;
          http_server_running = false;
          http_server_socket = minus_one;
        },
      )

  -- `memset(&g_http_module_state, 0, ...)` behind the stop.
  pub http_module_cleanup : ℤ → HttpModule W → ℤ × HttpModule W
  http_module_cleanup joined m =
      let stopped = if m.running then (http_module_stop joined m).1 else m in
      if not stopped.initialized then (pos 0, stopped) else (
        pos 0,
        record stopped {
          initialized = false;
          running = false;
          config = zero_config;
          thread_should_exit = false;
          server_socket = pos 0;
        },
      )
