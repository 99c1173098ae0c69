-- ===== src/HttpServer/Lifecycle/Examples.antt =====
-- The HTTP module of src/modules/http/http_module.c with one route table, through its lifecycle.
use strero.Prelude.{ℕ, ◌≡◌, refl, true, false, none, some, List, [], ◌∷◌, codes, minus_one}
use strero.HttpRouter.{Request, get}
use strero.HttpServer.Lifecycle.{
  HttpConfig, HttpModule, zero_config, http_module_init, http_module_stop,
}

abbrev config : HttpConfig
config = record zero_config { enabled = true }

abbrev status : Request (List ℕ)
status = record {
  path = some (codes "/s");
  method = get;
  handler = some (λ socket request w. 200 ∷ w);
  module_name = some (codes "http");
  description = none;
}

abbrev idle : HttpModule (List ℕ)
idle = record {
  initialized = true;
  running = false;
  config = config;
  thread_should_exit = false;
  server_socket = minus_one;
  http_server_running = false;
  http_server_socket = minus_one;
  router = record { routes = []; router_initialized = false };
}

init_test : (http_module_init none (record idle { initialized = false })).0 ≡ minus_one
unfolding http_module_init
init_test = refl

-- A thread that cannot be joined leaves the server marked as running.
join_test : (http_module_stop minus_one (record idle { running = true })).1.running ≡ true
unfolding http_module_stop
join_test = refl
