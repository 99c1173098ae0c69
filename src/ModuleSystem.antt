-- ===== src/ModuleSystem.antt =====
-- The module registry and lifecycle of src/module_system.c and src/module_system.h.
--
-- A `module_info_t` is a static object of its module, which the registry reaches by pointer, so the
-- state has a store of such objects, and `g_modules[0 .. g_module_count)` is a list of addresses.
-- Everything that a callback reads or writes is the `world`, which is threaded through the calls.
-- Callbacks do not call back into the module system. `version` and `description` (only logged),
-- and the fields `module_data`, `config_validate` and `get_stats` (never read) are left out.
pub mod Registry
pub mod Registration
pub mod Loading
pub mod Sweeps
use strero.Prelude.{
  ℕ, Bool, true, false, not, ◌||◌, Option, none, some, List, [], ◌∷◌, ◌++◌, leb, ltb, ◌==◌,
  if◌then◌else◌, length, take, Bytes, str_eq, ℤ, pos, minus_one, is_zero,
}

pub data ModuleState : Type 0 where
  unregistered registered initialized running error : ModuleState

abbrev pub is_registered : ModuleState → Bool
is_registered registered = true
is_registered _ = false

abbrev pub is_initialized : ModuleState → Bool
is_initialized initialized = true
is_initialized _ = false

abbrev pub is_running : ModuleState → Bool
is_running running = true
is_running _ = false

abbrev pub max_modules : ℕ
max_modules = 16

-- W: the state of everything outside the module system; C: the content of a configuration block; J: parsed JSON.
module _ (W C J : Type 0) where
  -- A callback that is NULL is `none`. `init` returns its result and its block after the call.
  pub record ModuleInfo : Type 0 where
    pub name : Bytes
    pub state : ModuleState
    pub init : Option (Option C → W → ℤ × Option C × W)
    pub start : Option (W → ℤ × W)
    pub stop : Option (W → ℤ × W)
    pub cleanup : Option (W → ℤ × W)
    pub config_parse : Option (J → C → ℤ × C)
    pub config_free : Option (C → W → W)
    pub config_size : ℕ
    pub rtsp_setup : Option (W → ℤ × W)
    pub rtsp_frame_callback : Option (ℤ → Bytes → W → ℤ × W)
    pub rtsp_cleanup : Option (W → ℤ × W)

  -- `modules` is `g_modules[0 .. g_module_count)`; the slots above are NULL.
  pub record System : Type 0 where
    pub store : ℕ → ModuleInfo
    pub modules : List ℕ
    pub system_initialized : Bool
    pub world : W

module _ {W C J : Type 0} where
  abbrev pub set_module : System W C J → ℕ → ModuleInfo W C J → System W C J
  set_module s p m = record s { store = λ q. if q == p then m else s.store q }

  abbrev pub set_state : System W C J → ℕ → ModuleState → System W C J
  set_state s p st = set_module s p (record (s.store p) { state = st })

  abbrev pub set_world : System W C J → W → System W C J
  set_world s w = record s { world = w }

  pub module_system_init : System W C J → ℤ × System W C J
  module_system_init s =
      if s.system_initialized
      then (pos 0, s)
      else (pos 0, record s { modules = []; system_initialized = true })

  -- The loop over the names that are registered.
  pub has_name : (ℕ → ModuleInfo W C J) → Bytes → List ℕ → Bool
  has_name store name [] = false
  has_name store name (p ∷ ps) = str_eq (store p).name name || has_name store name ps

  -- After the auto-initialisation.
  register_checked : ℕ → System W C J → ℤ × System W C J
  register_checked p s =
      if leb max_modules (length s.modules)
      then (minus_one, s)
      else if has_name s.store (s.store p).name s.modules
      then (minus_one, s)
      else (pos 0, set_state (record s { modules = s.modules ++ p ∷ [] }) p registered)

  -- `none` is a NULL pointer.
  pub module_register : Option ℕ → System W C J → ℤ × System W C J
  module_register none s = (minus_one, s)
  module_register (some p) s =
      if s.system_initialized
      then register_checked p s
      else (let (r, s') = module_system_init s in
          if not (is_zero r) then (minus_one, s') else register_checked p s')

  find_name : (ℕ → ModuleInfo W C J) → Bytes → List ℕ → Option ℕ
  find_name store name [] = none
  find_name store name (p ∷ ps) =
      if str_eq (store p).name name then some p else find_name store name ps

  -- The result is the module's address, or `none` for NULL.
  pub module_get_by_name : Option Bytes → System W C J → Option ℕ
  module_get_by_name none s = none
  module_get_by_name (some name) s = find_name s.store name s.modules

  -- The addresses that are written to the caller's array; their number is the result.
  pub module_get_all : ℕ → System W C J → List ℕ
  module_get_all max s =
      take (if ltb (length s.modules) max then length s.modules else max) s.modules
