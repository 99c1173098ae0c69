-- ===== src/ModuleSystem/Sweeps/Lifecycle.antt =====
-- `module_init_all` and `module_start_all` of src/module_system.c.
use strero.Prelude.{
  ℕ, ◌+◌, ◌≡◌, refl, Bool, true, false, Option, none, some, ◌==◌, ==_iff, ==_self, if◌then◌else◌,
  contains, Distinct, ℤ, pos, minus_one, is_zero, arith, inl, inr, Bool-cases, ◌&&◌,
}
use strero.ModuleSystem.{
  ModuleState, ModuleInfo, System, initialized, running, error, is_registered, is_initialized,
}
use strero.ModuleSystem.Loading.{Platform, module_config}
use strero.ModuleSystem.Registry.{IsValid, NamesDistinct-Distinct}
use strero.ModuleSystem.Sweeps.{
  Progress, begin, free_config, init_one, start_one, module_init_all, module_start_all,
}
use strero.ModuleSystem.Sweeps.Visits.{
  Visits, modules-for_each, flag-for_each, store_outside, store_inside,
}
use strero.ModuleSystem.Sweeps.Failures.{is_error, failures, error_count-for_each}

-- ERROR if that is where a module is, else the state it was meant to reach.
abbrev pub outcome : ModuleState → ModuleState → ModuleState
outcome reached now = if is_error now then error else reached

module _ {W C J : Type 0} where
  abbrev init_called :
      Platform C J → ModuleInfo W C J → (Option C → W → ℤ × Option C × W) → W → ModuleInfo W C J × W
  init_called env m init w =
      let (ret, config, w') = init (module_config env m) w in
      if is_zero ret
      then (record m { state = initialized }, w')
      else (record m { state = error }, free_config m config w')

  -- What one visit of `module_init_all` does to a module and to the world.
  abbrev init_step : Platform C J → ModuleInfo W C J → W → ModuleInfo W C J × W
  init_step env m w =
      if is_registered m.state
      then (elim m.init [ none ↦ (m, w) | some init ↦ init_called env m init w ])
      else (m, w)

  init_one-Visits :
      (env : Platform C J)
      → Visits (λ (t : Progress W C J). t.system) (init_step env) (init_one env)
  unfolding init_one
  init_one-Visits env = record {
    store = λ p q t. ground (arith, ==_iff q p);
    world = λ p t. ground arith;
    modules = λ p t. ground arith;
    flag = λ p t. ground arith;
  }

  abbrev start_step : ModuleInfo W C J → W → ModuleInfo W C J × W
  start_step m w =
      if is_initialized m.state
      then (elim m.start [
        | none ↦ (record m { state = running }, w)
        | some start ↦
            let (ret, w') = start w in
            (record m { state = if is_zero ret then running else error }, w')
      ])
      else (m, w)

  start_one-Visits : Visits (λ (t : Progress W C J). t.system) start_step start_one
  unfolding start_one
  start_one-Visits = record {
    store = λ p q t. ground (arith, ==_iff q p);
    world = λ p t. ground arith;
    modules = λ p t. ground arith;
    flag = λ p t. ground arith;
  }

  init_one-counts :
      (env : Platform C J) (p : ℕ) (t : Progress W C J)
      → (init_one env p t).error_count
        ≡ t.error_count
          + (if is_registered (t.system.store p).state
                && is_error ((init_one env p t).system.store p).state
              then 1
              else 0)
  unfolding init_one
  init_one-counts env p t = ground (arith, ==_self p)

  start_one-counts :
      (p : ℕ) (t : Progress W C J)
      → (start_one p t).error_count
        ≡ t.error_count
          + (if is_initialized (t.system.store p).state
                && is_error ((start_one p t).system.store p).state
              then 1
              else 0)
  unfolding start_one
  start_one-counts p t = ground (arith, ==_self p)

  abbrev pub has_init : ModuleInfo W C J → Bool
  has_init m = elim m.init [ none ↦ false | some _ ↦ true ]

  init_step_lem :
      (env : Platform C J) (m : ModuleInfo W C J) (w : W)
      → (init_step env m w).0 ≡ (
          if is_registered m.state && has_init m
          then record m { state = outcome initialized (init_step env m w).0.state }
          else m)
  init_step_lem env m w = ground arith

  start_step_lem :
      (m : ModuleInfo W C J) (w : W)
      → (start_step m w).0 ≡ (
          if is_initialized m.state
          then record m { state = outcome running (start_step m w).0.state }
          else m)
  start_step_lem m w = ground arith

  -- From a valid registry, `module_init_all` moves each registered module that is REGISTERED and
  -- has an init function to INITIALIZED or ERROR, and changes no other module and not the
  -- registry. It returns 0 exactly if none of the modules that were REGISTERED is now in ERROR,
  -- and -1 otherwise.
  pub module_init_all_lem :
      {s : System W C J} (env : Platform C J)
      → IsValid s
      → let (r, s') = module_init_all env s in
        (r ≡ (if failures is_registered s.store s'.store s.modules == 0 then pos 0 else minus_one))
        × (s'.modules ≡ s.modules)
        × (s'.system_initialized ≡ s.system_initialized)
        × ((q : ℕ)
            → s'.store q ≡ (
                if contains q s.modules && (is_registered (s.store q).state && has_init (s.store q))
                then record (s.store q) { state = outcome initialized (s'.store q).state }
                else s.store q))
  unfolding module_init_all
  module_init_all_lem {s} env v = (
    ground (
      arith,
      error_count-for_each is_registered (init_step env) (init_one env) (init_one-Visits env)
          (init_one-counts env) s.modules (begin s) distinct,
    ),
    modules-for_each (λ t. t.system) (init_step env) (init_one env) (init_one-Visits env) s.modules
        (begin s),
    flag-for_each (λ t. t.system) (init_step env) (init_one env) (init_one-Visits env) s.modules
        (begin s),
    λ q. elim (Bool-cases (contains q s.modules)) [
      | inl e ↦
          let (w, at) =
            store_inside (λ t. t.system) (init_step env) (init_one env) (init_one-Visits env)
              s.modules q (begin s) distinct e in
          rw (e, at) (init_step_lem env (s.store q) w)
      | inr e ↦
          rw
            (
              e,
              store_outside (λ t. t.system) (init_step env) (init_one env) (init_one-Visits env)
                  s.modules q (begin s) e,
            )
            refl
    ],
  )
    where
      distinct : Distinct s.modules
      distinct = NamesDistinct-Distinct s.store s.modules v.distinct

  -- From a valid registry, `module_start_all` moves each registered module that is INITIALIZED to
  -- RUNNING or ERROR, and changes no other module and not the registry. It returns 0 exactly if
  -- none of the modules that were INITIALIZED is now in ERROR, and -1 otherwise.
  pub module_start_all_lem :
      {s : System W C J}
      → IsValid s
      → let (r, s') = module_start_all s in
        (r ≡ (if failures is_initialized s.store s'.store s.modules == 0 then pos 0 else minus_one))
        × (s'.modules ≡ s.modules)
        × (s'.system_initialized ≡ s.system_initialized)
        × ((q : ℕ)
            → s'.store q ≡ (
                if contains q s.modules && is_initialized (s.store q).state
                then record (s.store q) { state = outcome running (s'.store q).state }
                else s.store q))
  unfolding module_start_all
  module_start_all_lem {s} v = (
    ground (
      arith,
      error_count-for_each is_initialized start_step start_one start_one-Visits start_one-counts
          s.modules (begin s) distinct,
    ),
    modules-for_each (λ t. t.system) start_step start_one start_one-Visits s.modules (begin s),
    flag-for_each (λ t. t.system) start_step start_one start_one-Visits s.modules (begin s),
    λ q. elim (Bool-cases (contains q s.modules)) [
      | inl e ↦
          let (w, at) =
            store_inside (λ t. t.system) start_step start_one start_one-Visits s.modules q (begin s)
              distinct e in
          rw (e, at) (start_step_lem (s.store q) w)
      | inr e ↦
          rw
            (
              e,
              store_outside (λ t. t.system) start_step start_one start_one-Visits s.modules q
                  (begin s) e,
            )
            refl
    ],
  )
    where
      distinct : Distinct s.modules
      distinct = NamesDistinct-Distinct s.store s.modules v.distinct
