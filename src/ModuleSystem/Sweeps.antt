-- ===== src/ModuleSystem/Sweeps.antt =====
-- The operations of src/module_system.c that go through all registered modules.
mod Visits
mod Failures
pub mod Lifecycle
pub mod Shutdown
pub mod BringUp
mod Examples
use strero.Prelude.{
  ℕ, ◌+◌, Bool, true, false, not, ◌||◌, Option, none, some, List, [], ◌∷◌, reverse, ◌==◌,
  if◌then◌else◌, length, Bytes, ℤ, pos, minus_one, is_zero,
}
use strero.ModuleSystem.{
  ModuleInfo, System, registered, initialized, running, error, unregistered, is_registered,
  is_initialized, is_running, set_world, set_state,
}
use strero.ModuleSystem.Loading.{Platform, module_config}

-- A callback whose result is ignored, and that is skipped if it is NULL.
unfoldable pub call : {W : Type 0} → Option (W → ℤ × W) → W → W
call none w = w
call (some f) w = (f w).1

abbrev result_of : ℕ → ℤ
result_of errors = if errors == 0 then pos 0 else minus_one

-- A loop over registered modules, whose body returns the new state.
pub for_each : {T : Type 0} → (ℕ → T → T) → List ℕ → T → T
for_each body [] t = t
for_each body (p ∷ ps) t = for_each body ps (body p t)

-- The state with the two counters of `module_init_all` and `module_start_all`.
pub record Progress (W C J : Type 0) : Type 0 where
  pub system : System W C J
  pub success_count : ℕ
  pub error_count : ℕ

module _ {W C J : Type 0} where
  abbrev pub begin : System W C J → Progress W C J
  begin s = record { system = s; success_count = 0; error_count = 0 }

  abbrev succeed : Progress W C J → System W C J → Progress W C J
  succeed t s = record t { system = s; success_count = t.success_count + 1 }

  abbrev fail : Progress W C J → System W C J → Progress W C J
  fail t s = record t { system = s; error_count = t.error_count + 1 }

  -- What becomes of the block of a module whose `init` failed. (`free` shows in no state here.)
  free_config : ModuleInfo W C J → Option C → W → W
  free_config m none w = w
  free_config m (some c) w = elim m.config_free [ none ↦ w | some free ↦ free c w ]

  -- One round of the loop of `module_init_all`.
  pub init_one : Platform C J → ℕ → Progress W C J → Progress W C J
  init_one env p t =
      let s = t.system in
      let m = s.store p in
      if is_registered m.state
      then (elim m.init [
        | none ↦ t
        | some init ↦
            let (ret, config, w) = init (module_config env m) s.world in
            if is_zero ret
            then succeed t (set_state (set_world s w) p initialized)
            else fail t (set_state (set_world s (free_config m config w)) p error)
      ])
      else t

  pub start_one : ℕ → Progress W C J → Progress W C J
  start_one p t =
      let s = t.system in
      let m = s.store p in
      if is_initialized m.state
      then (elim m.start [
        | none ↦ succeed t (set_state s p running)
        | some start ↦
            let (ret, w) = start s.world in
            if is_zero ret
            then succeed t (set_state (set_world s w) p running)
            else fail t (set_state (set_world s w) p error)
      ])
      else t

  pub module_init_all : Platform C J → System W C J → ℤ × System W C J
  module_init_all env s =
      let t = for_each (init_one env) s.modules (begin s) in (result_of t.error_count, t.system)

  pub module_start_all : System W C J → ℤ × System W C J
  module_start_all s =
      let t = for_each start_one s.modules (begin s) in (result_of t.error_count, t.system)

  pub stop_one : ℕ → System W C J → System W C J
  stop_one p s =
      let m = s.store p in
      if is_running m.state then set_state (set_world s (call m.stop s.world)) p initialized else s

  pub cleanup_one : ℕ → System W C J → System W C J
  cleanup_one p s = set_state (set_world s (call (s.store p).cleanup s.world)) p unregistered

  -- for (i = g_module_count - 1; i >= 0; i--)
  pub module_stop_all : System W C J → ℤ × System W C J
  module_stop_all s = (pos 0, for_each stop_one (reverse s.modules) s)

  pub module_cleanup_all : System W C J → ℤ × System W C J
  module_cleanup_all s = (
    pos 0,
    record (for_each cleanup_one (reverse s.modules) s) {
      modules = [];
      system_initialized = false;
    },
  )

  rtsp_setup_one : ℕ → System W C J → System W C J
  rtsp_setup_one p s =
      if is_running (s.store p).state then set_world s (call (s.store p).rtsp_setup s.world) else s

  -- `server` is the test `server != NULL`.
  pub module_rtsp_setup_all : Bool → System W C J → ℤ × System W C J
  module_rtsp_setup_all server s =
      if not server then (minus_one, s) else (pos 0, for_each rtsp_setup_one s.modules s)

  frame_one : ℤ → Bytes → ℕ → System W C J → System W C J
  frame_one channel frame p s = elim (s.store p).rtsp_frame_callback [
    | none ↦ s
    | some f ↦ if is_running (s.store p).state then set_world s (f channel frame s.world).1 else s
  ]

  -- The frame and its size are a list; `valid` is the test of the three pointers.
  pub module_rtsp_frame_callback_all : Bool → ℤ → Bytes → System W C J → ℤ × System W C J
  module_rtsp_frame_callback_all valid channel frame s =
      if not valid || length frame == 0
      then (minus_one, s)
      else (pos 0, for_each (frame_one channel frame) s.modules s)

  rtsp_cleanup_one : ℕ → System W C J → System W C J
  rtsp_cleanup_one p s = set_world s (call (s.store p).rtsp_cleanup s.world)

  pub module_rtsp_cleanup_all : Bool → System W C J → ℤ × System W C J
  module_rtsp_cleanup_all server s =
      if not server
      then (minus_one, s)
      else (pos 0, for_each rtsp_cleanup_one (reverse s.modules) s)
