-- ===== src/ModuleSystem/Sweeps/Examples.antt =====
-- The module system of src/module_system.c on two small modules, 1 and 2, that log their callbacks.
use strero.Prelude.{
  ℕ, ◌+◌, ◌≡◌, refl, true, false, ◌&&◌, Option, none, some, List, [], ◌∷◌, str_eq, codes, ◌==◌,
  if◌then◌else◌, contains, ℤ, pos, minus_one, arith,
}
use strero.ModuleSystem.{
  ModuleState, registered, initialized, running, unregistered, is_registered, ModuleInfo, System,
  has_name, module_register, register_checked, module_get_all,
}
use strero.ModuleSystem.Registry.{IsValid}
use strero.ModuleSystem.Loading.{Platform, find_config, load_json}
use strero.ModuleSystem.Sweeps.{
  call, for_each, init_one, start_one, stop_one, cleanup_one, module_init_all, module_start_all,
  module_stop_all, module_cleanup_all,
}
use strero.ModuleSystem.Sweeps.Failures.{failures}
use strero.ModuleSystem.Sweeps.Lifecycle.{outcome, has_init, module_init_all_lem}
use strero.ModuleSystem.Sweeps.BringUp.{bring_up_runs}

abbrev log : ℕ → Option (List ℕ → ℤ × List ℕ)
log n = some (λ w. (pos 0, n ∷ w))

abbrev a_module : ModuleState → ℕ → ModuleInfo (List ℕ) ℕ ℕ
a_module st p = record {
  name = b'm' ∷ p ∷ [];
  state = st;
  init = some (λ config w. (pos 0, config, (10 + p) ∷ w));
  start = log (20 + p);
  stop = log (30 + p);
  cleanup = log (40 + p);
  config_parse = some (λ json block. (pos 0, json));
  config_free = none;
  config_size = 4;
  rtsp_setup = none;
  rtsp_frame_callback = none;
  rtsp_cleanup = none;
}

abbrev fresh : System (List ℕ) ℕ ℕ
fresh = record {
  store = a_module unregistered;
  modules = [];
  system_initialized = false;
  world = [];
}

abbrev two : ModuleState → System (List ℕ) ℕ ℕ
two st = record { store = a_module st; modules = 1 ∷ 2 ∷ []; system_initialized = true; world = [] }

-- No file is found, and `malloc` returns a block that holds 99.
abbrev no_files : Platform ℕ ℕ
no_files = record {
  malloc = λ _. some 99;
  zeroed = λ _. 0;
  binary_dir = some (codes "/usr/bin");
  stat_ok = λ _. false;
  json_from_file = λ _. none;
}

fresh-IsValid : IsValid fresh
fresh-IsValid = record { bounded = ground arith; distinct = tt; empty_before_init = λ _. refl }

two-IsValid : (st : ModuleState) → IsValid (two st)
unfolding has_name str_eq
two-IsValid st = record {
  bounded = ground arith;
  distinct = (refl, (refl, tt));
  empty_before_init = λ h. cc;
}

get_all_test : module_get_all 1 (two running) ≡ 1 ∷ []
unfolding module_get_all
get_all_test = refl

init_all_test : (module_init_all no_files (two registered)).1.world ≡ 12 ∷ 11 ∷ []
unfolding module_init_all for_each init_one
init_all_test = refl

shutdown_test :
    (module_cleanup_all (module_stop_all (two running)).1).1.world ≡ 41 ∷ 42 ∷ 31 ∷ 32 ∷ []
unfolding module_stop_all module_cleanup_all for_each stop_one cleanup_one call
shutdown_test = refl

module_init_all_lem_example :
    let s' = (module_init_all no_files (two registered)).1 in
    ((module_init_all no_files (two registered)).0 ≡ (
      if failures is_registered (a_module registered) s'.store (1 ∷ 2 ∷ []) == 0
      then pos 0
      else minus_one))
    × (s'.modules ≡ 1 ∷ 2 ∷ [])
    × (s'.system_initialized ≡ true)
    × ((q : ℕ)
        → s'.store q ≡ (
            if contains q (1 ∷ 2 ∷ [])
              && (is_registered registered && has_init (a_module registered q))
            then record (a_module registered q) { state = outcome initialized (s'.store q).state }
            else a_module registered q))
module_init_all_lem_example =
    module_init_all_lem {s = two registered} no_files (two-IsValid registered)

init_ok : (module_init_all no_files (two registered)).0 ≡ pos 0
unfolding module_init_all for_each init_one
init_ok = refl

start_ok : (module_start_all (module_init_all no_files (two registered)).1).0 ≡ pos 0
unfolding module_init_all module_start_all for_each init_one start_one
start_ok = refl

bring_up_runs_example :
    ((module_start_all (module_init_all no_files (two registered)).1).1.store 2).state ≡ running
bring_up_runs_example =
    bring_up_runs {s = two registered} no_files 2 (two-IsValid registered) init_ok start_ok refl
      refl refl

register_ok : (module_register (some 3) (two running)).0 ≡ pos 0
unfolding module_register register_checked has_name str_eq
register_ok = refl

nothing_found : find_config no_files (a_module registered 1).name ≡ none
unfolding find_config load_json
nothing_found = refl
