-- ===== src/ModuleSystem/Sweeps/Failures.antt =====
-- The error counters of `module_init_all` and `module_start_all`, as a count over the modules.
use strero.Prelude.{
  ℕ, ◌+◌, ◌≡◌, refl, ap, Bool, true, false, List, [], ◌∷◌, ◌==◌, ==_iff, ==_self, if◌then◌else◌,
  contains, Distinct, arith, inl, inr, Bool-cases, ◌&&◌,
}
use strero.ModuleSystem.{ModuleInfo, ModuleState, error}
use strero.ModuleSystem.Sweeps.{Progress, for_each}
use strero.ModuleSystem.Sweeps.Visits.{Visits, store_outside}

abbrev pub is_error : ModuleState → Bool
is_error error = true
is_error _ = false

-- How many of the modules `ps` went from a state that `from` accepts to the state ERROR.
abbrev pub failures :
    {W C J : Type 0}
    → (ModuleState → Bool)
    → (ℕ → ModuleInfo W C J)
    → (ℕ → ModuleInfo W C J)
    → List ℕ
    → ℕ
failures from f g [] = 0
failures from f g (p ∷ ps) =
    (if from (f p).state && is_error (g p).state then 1 else 0) + failures from f g ps

module _ {W C J : Type 0} (from : ModuleState → Bool) where
  failures-congr :
      (f f' g : ℕ → ModuleInfo W C J) (ps : List ℕ)
      → ((q : ℕ) → contains q ps ≡ true → f q ≡ f' q)
      → failures from f g ps ≡ failures from f' g ps
  failures-congr f f' g [] h = refl
  failures-congr f f' g (p ∷ ps) h =
      let e : f p ≡ f' p = h p (ground (arith, ==_self p)) in
      rw e (
        ap (λ n. (if from (f' p).state && is_error (g p).state then 1 else 0) + n)
          (failures-congr f f' g ps (λ q m. h q (ground arith))))

  pub failures_zero :
      (f g : ℕ → ModuleInfo W C J) (q : ℕ) (ps : List ℕ)
      → failures from f g ps ≡ 0
      → contains q ps ≡ true
      → from (f q).state ≡ true
      → is_error (g q).state ≡ false
  failures_zero f g q [] z c h = cc
  failures_zero f g q (p ∷ ps) z c h = elim (Bool-cases (q == p)) [
    | inl e ↦ let e' : q ≡ p = (==_iff q p).0 e in rw e' (ground (arith, rw e' at h))
    | inr n ↦ failures_zero f g q ps (ground arith) (ground arith) h
  ]

  module _ (step : ModuleInfo W C J → W → ModuleInfo W C J × W)
      (body : ℕ → Progress W C J → Progress W C J)
      (v : Visits (λ (t : Progress W C J). t.system) step body)
      (counts : (p : ℕ) (t : Progress W C J)
        → (body p t).error_count
          ≡ t.error_count
            + (if from (t.system.store p).state && is_error ((body p t).system.store p).state
                then 1
                else 0)) where
    pub error_count-for_each :
        (ps : List ℕ) (t : Progress W C J)
        → Distinct ps
        → (for_each body ps t).error_count
          ≡ t.error_count + failures from t.system.store (for_each body ps t).system.store ps
    unfolding for_each
    error_count-for_each [] t d = omega arith
    error_count-for_each (p ∷ ps) t d = omega (
      arith,
      error_count-for_each ps (body p t) d.1,
      counts p t,
      failures-congr (body p t).system.store t.system.store
          (for_each body ps (body p t)).system.store ps (λ q m. ground (arith, v.store p q t)),
      ap
          (λ (m : ModuleInfo W C J).
            if from (t.system.store p).state && is_error m.state then one else 0)
          (store_outside (λ t. t.system) step body v ps p (body p t) d.0),
    )
      where
        one : ℕ
        one = 1
