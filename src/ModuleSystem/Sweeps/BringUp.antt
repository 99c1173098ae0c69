-- ===== src/ModuleSystem/Sweeps/BringUp.antt =====
-- The sequence of main.c over the module system: initialise, start, stop; and any sequence of calls.
use strero.Prelude.{ℕ, ◌≡◌, true, false, Option, List, [], ◌∷◌, contains, pos, arith}
use strero.ModuleSystem.{
  System, running, is_registered, is_initialized, module_system_init, module_register,
}
use strero.ModuleSystem.Loading.{Platform}
use strero.ModuleSystem.Registry.{
  IsValid, SameNames, NamesDistinct-congr, module_system_init-IsValid, module_register-IsValid,
}
use strero.ModuleSystem.Sweeps.{
  module_init_all, module_start_all, module_stop_all, module_cleanup_all,
}
use strero.ModuleSystem.Sweeps.Failures.{is_error, failures_zero}
use strero.ModuleSystem.Sweeps.Lifecycle.{module_init_all_lem, module_start_all_lem, has_init}
use strero.ModuleSystem.Sweeps.Shutdown.{module_stop_all_lem, module_cleanup_all_lem}

-- A call of the module system by the program.
pub data Call : Type 0 where
  system_init : Call
  register : Option ℕ → Call
  init_all start_all stop_all cleanup_all : Call

module _ {W C J : Type 0} where
  -- The registry is valid in every state with the same modules, flag and names.
  IsValid-congr :
      {s s' : System W C J}
      → IsValid s
      → s'.modules ≡ s.modules
      → s'.system_initialized ≡ s.system_initialized
      → SameNames s.store s'.store
      → IsValid s'
  IsValid-congr {s} {s'} v m f n = record {
    bounded = rw m v.bounded;
    distinct = rw m (NamesDistinct-congr s.store s'.store s.modules n v.distinct);
    empty_before_init = rw (m, f) v.empty_before_init;
  }

  pub module_init_all-IsValid :
      {s : System W C J} (env : Platform C J) → IsValid s → IsValid (module_init_all env s).1
  module_init_all-IsValid {s} env v =
      let (_, m, f, st) = module_init_all_lem env v in
      IsValid-congr v m f (λ q. ground (arith, st q))

  pub module_start_all-IsValid : {s : System W C J} → IsValid s → IsValid (module_start_all s).1
  module_start_all-IsValid {s} v =
      let (_, m, f, st) = module_start_all_lem v in IsValid-congr v m f (λ q. ground (arith, st q))

  pub module_stop_all-IsValid : {s : System W C J} → IsValid s → IsValid (module_stop_all s).1
  module_stop_all-IsValid {s} v =
      let (m, f, st) = module_stop_all_lem v in IsValid-congr v m f (λ q. ground (arith, st q))

  pub module_cleanup_all-IsValid : {s : System W C J} → IsValid s → IsValid (module_cleanup_all s).1
  module_cleanup_all-IsValid {s} v =
      let m = (module_cleanup_all_lem v).0 in
      record { bounded = rw m (omega arith); distinct = rw m tt; empty_before_init = λ _. m }

  pub run : Platform C J → List Call → System W C J → System W C J
  run env [] s = s
  run env (system_init ∷ cs) s = run env cs (module_system_init s).1
  run env (register p ∷ cs) s = run env cs (module_register p s).1
  run env (init_all ∷ cs) s = run env cs (module_init_all env s).1
  run env (start_all ∷ cs) s = run env cs (module_start_all s).1
  run env (stop_all ∷ cs) s = run env cs (module_stop_all s).1
  run env (cleanup_all ∷ cs) s = run env cs (module_cleanup_all s).1

  -- Whatever calls the program makes, in any order, the registry stays valid: at most 16 modules,
  -- with pairwise different names, and none before initialisation.
  pub bring_up-IsValid :
      (env : Platform C J) (cs : List Call) (s : System W C J) → IsValid s → IsValid (run env cs s)
  unfolding run
  bring_up-IsValid env [] s v = v
  bring_up-IsValid env (system_init ∷ cs) s v =
      bring_up-IsValid env cs _ (module_system_init-IsValid v)
  bring_up-IsValid env (register p ∷ cs) s v =
      bring_up-IsValid env cs _ (module_register-IsValid p v)
  bring_up-IsValid env (init_all ∷ cs) s v =
      bring_up-IsValid env cs _ (module_init_all-IsValid env v)
  bring_up-IsValid env (start_all ∷ cs) s v = bring_up-IsValid env cs _ (module_start_all-IsValid v)
  bring_up-IsValid env (stop_all ∷ cs) s v = bring_up-IsValid env cs _ (module_stop_all-IsValid v)
  bring_up-IsValid env (cleanup_all ∷ cs) s v =
      bring_up-IsValid env cs _ (module_cleanup_all-IsValid v)

  -- If `module_init_all` and then `module_start_all` return 0, every registered module that was
  -- REGISTERED and has an init function is RUNNING.
  pub bring_up_runs :
      {s : System W C J} (env : Platform C J) (q : ℕ)
      → IsValid s
      → (module_init_all env s).0 ≡ pos 0
      → (module_start_all (module_init_all env s).1).0 ≡ pos 0
      → contains q s.modules ≡ true
      → is_registered (s.store q).state ≡ true
      → has_init (s.store q) ≡ true
      → ((module_start_all (module_init_all env s).1).1.store q).state ≡ running
  bring_up_runs {s} env q v i0 s0 c r h =
      let (ri, mi, _, at) = module_init_all_lem env v in
      let (rs, _, _, at') = module_start_all_lem (module_init_all-IsValid env v) in
      let started : is_error (s1.store q).state ≡ false =
        failures_zero is_registered s.store s1.store q s.modules (ground (arith, ri)) c r in
      let up : is_initialized (s1.store q).state ≡ true = ground (arith, at q) in
      let ran : is_error (s2.store q).state ≡ false =
        failures_zero is_initialized s1.store s2.store q s1.modules (ground (arith, rs)) (rw mi c)
          up in
      let c' : contains q s1.modules ≡ true = rw mi c in ground (arith, at' q)
    where
      s1 : System W C J
      s1 = (module_init_all env s).1

      s2 : System W C J
      s2 = (module_start_all s1).1
