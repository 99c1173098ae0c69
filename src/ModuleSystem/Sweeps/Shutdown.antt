-- ===== src/ModuleSystem/Sweeps/Shutdown.antt =====
-- `module_stop_all` and `module_cleanup_all` of src/module_system.c.
use strero.Prelude.{
  ℕ, ◌≡◌, refl, ◌&&◌, foldr, fun_ext, ◌∙◌, ap, false, [], reverse, ==_iff, if◌then◌else◌, contains,
  arith,
}
use strero.ModuleSystem.{ModuleInfo, System, initialized, unregistered, is_running}
use strero.ModuleSystem.Registry.{IsValid, NamesDistinct-Distinct}
use strero.ModuleSystem.Sweeps.{call, stop_one, cleanup_one, module_stop_all, module_cleanup_all}
use strero.ModuleSystem.Sweeps.Visits.{
  Visits, modules-for_each, flag-for_each, store_reversed, world_reversed,
}

module _ {W C J : Type 0} where
  -- What one visit of `module_stop_all` does to a module and to the world.
  abbrev pub stop_step : ModuleInfo W C J → W → ModuleInfo W C J × W
  stop_step m w =
      if is_running m.state then (record m { state = initialized }, call m.stop w) else (m, w)

  abbrev pub cleanup_step : ModuleInfo W C J → W → ModuleInfo W C J × W
  cleanup_step m w = (record m { state = unregistered }, call m.cleanup w)

  abbrev stopped : ModuleInfo W C J → ModuleInfo W C J
  stopped m = if is_running m.state then record m { state = initialized } else m

  stop_one-Visits : Visits (λ (s : System W C J). s) stop_step stop_one
  unfolding stop_one
  stop_one-Visits = record {
    store = λ p q s. ground (arith, ==_iff q p);
    world = λ p s. ground arith;
    modules = λ p s. ground arith;
    flag = λ p s. ground arith;
  }

  cleanup_one-Visits : Visits (λ (s : System W C J). s) cleanup_step cleanup_one
  unfolding cleanup_one
  cleanup_one-Visits = record {
    store = λ p q s. ground (arith, ==_iff q p);
    world = λ p s. refl;
    modules = λ p s. refl;
    flag = λ p s. refl;
  }

  -- After `module_stop_all` the running modules are INITIALIZED, every other module is in the
  -- state that it had, and the registry is as it was; so no registered module is left RUNNING.
  pub module_stop_all_lem :
      {s : System W C J}
      → IsValid s
      → let s' = (module_stop_all s).1 in
        (s'.modules ≡ s.modules)
        × (s'.system_initialized ≡ s.system_initialized)
        × ((q : ℕ)
            → s'.store q ≡ (
                if contains q s.modules && is_running (s.store q).state
                then record (s.store q) { state = initialized }
                else s.store q))
  unfolding module_stop_all
  module_stop_all_lem {s} v = (
    modules-for_each (λ s. s) stop_step stop_one stop_one-Visits (reverse s.modules) s,
    flag-for_each (λ s. s) stop_step stop_one stop_one-Visits (reverse s.modules) s,
    λ q. ground (
      arith,
      store_reversed (λ s. s) stop_step stop_one stop_one-Visits stopped (λ m w. ground arith)
          s.modules q s (NamesDistinct-Distinct s.store s.modules v.distinct),
    ),
  )

  -- The stop callbacks run once for each module that was RUNNING, in the reverse order of
  -- registration: the last registered module first.
  pub world-module_stop_all :
      {s : System W C J}
      → IsValid s
      → (module_stop_all s).1.world
        ≡ foldr
            (λ p w. if is_running (s.store p).state then call (s.store p).stop w else w)
            s.world
            s.modules
  unfolding module_stop_all
  world-module_stop_all {s} v =
      world_reversed (λ s. s) stop_step stop_one stop_one-Visits s.modules s
        (NamesDistinct-Distinct s.store s.modules v.distinct)
      ∙ ap (λ f. foldr f s.world s.modules) (fun_ext λ p. fun_ext λ w. ground arith)

  -- After `module_cleanup_all` the registry is empty and not initialised, every module that was
  -- registered is UNREGISTERED, the others are as they were, and each cleanup callback has
  -- run once, in the reverse order of registration, whatever the state of its module.
  pub module_cleanup_all_lem :
      {s : System W C J}
      → IsValid s
      → let s' = (module_cleanup_all s).1 in
        (s'.modules ≡ [])
        × (s'.system_initialized ≡ false)
        × (s'.world ≡ foldr (λ p w. call (s.store p).cleanup w) s.world s.modules)
        × ((q : ℕ)
            → s'.store q ≡ (
                if contains q s.modules
                then record (s.store q) { state = unregistered }
                else s.store q))
  unfolding module_cleanup_all
  module_cleanup_all_lem {s} v = (
    refl,
    refl,
    world_reversed (λ s. s) cleanup_step cleanup_one cleanup_one-Visits s.modules s
        (NamesDistinct-Distinct s.store s.modules v.distinct),
    λ q.
        store_reversed (λ s. s) cleanup_step cleanup_one cleanup_one-Visits
          (λ m. record m { state = unregistered }) (λ m w. refl) s.modules q s
          (NamesDistinct-Distinct s.store s.modules v.distinct),
  )
