-- ===== src/ModuleSystem/Sweeps/Visits.antt =====
-- What a loop over distinct modules does, if its body changes one module and the world.
use strero.Prelude.{
  ℕ, ◌≡◌, refl, ap, ◌∙◌, true, false, List, [], ◌∷◌, ◌==◌, ◌++◌, foldr, reverse, reverse-cons,
  contains, contains-reverse, Distinct, Distinct-reverse, if◌then◌else◌, arith, inl, inr,
  Bool-cases, ==_self,
}
use strero.ModuleSystem.{ModuleInfo, System}
use strero.ModuleSystem.Sweeps.{for_each}

for_each-append :
    {T : Type 0} (f : ℕ → T → T) (xs ys : List ℕ) (t : T)
    → for_each f (xs ++ ys) t ≡ for_each f ys (for_each f xs t)
unfolding for_each
for_each-append f [] ys t = refl
for_each-append f (x ∷ xs) ys t = for_each-append f xs ys (f x t)

-- A loop from the last element to the first.
for_each-reverse :
    {T : Type 0} (f : ℕ → T → T) (xs : List ℕ) (t : T) → for_each f (reverse xs) t ≡ foldr f t xs
unfolding for_each
for_each-reverse f [] t = refl
for_each-reverse f (x ∷ xs) t =
    rw (reverse-cons, for_each-append) (ap (f x) (for_each-reverse f xs t))

-- `step` is the effect of one visit on the visited module and on the world. `sys` reads the state
-- of the module system out of what the loop carries.
module _ {W C J T : Type 0} (sys : T → System W C J)
    (step : ModuleInfo W C J → W → ModuleInfo W C J × W) (body : ℕ → T → T) where
  pub record Visits : Type 0 where
    pub store :
        (p q : ℕ) (t : T)
        → (sys (body p t)).store q
          ≡ (if q == p then (step ((sys t).store p) (sys t).world).0 else (sys t).store q)
    pub world : (p : ℕ) (t : T) → (sys (body p t)).world ≡ (step ((sys t).store p) (sys t).world).1
    pub modules : (p : ℕ) (t : T) → (sys (body p t)).modules ≡ (sys t).modules
    pub flag : (p : ℕ) (t : T) → (sys (body p t)).system_initialized ≡ (sys t).system_initialized

  -- The world after visits of `ps`, each to a module as it stands in `store`.
  abbrev pub worlds : (ℕ → ModuleInfo W C J) → List ℕ → W → W
  worlds store ps w = for_each (λ p w'. (step (store p) w').1) ps w

  module _ (v : Visits) where
    pub modules-for_each :
        (ps : List ℕ) (t : T) → (sys (for_each body ps t)).modules ≡ (sys t).modules
    unfolding for_each
    modules-for_each [] t = refl
    modules-for_each (p ∷ ps) t = modules-for_each ps (body p t) ∙ v.modules p t

    pub flag-for_each :
        (ps : List ℕ) (t : T)
        → (sys (for_each body ps t)).system_initialized ≡ (sys t).system_initialized
    unfolding for_each
    flag-for_each [] t = refl
    flag-for_each (p ∷ ps) t = flag-for_each ps (body p t) ∙ v.flag p t

    pub store_outside :
        (ps : List ℕ) (q : ℕ) (t : T)
        → contains q ps ≡ false
        → (sys (for_each body ps t)).store q ≡ (sys t).store q
    unfolding for_each
    store_outside [] q t h = refl
    store_outside (p ∷ ps) q t h = ground (arith, v.store p q t, store_outside ps q (body p t))

    -- A module that is in the list is visited once, as it stood before the loop.
    pub store_inside :
        (ps : List ℕ) (q : ℕ) (t : T)
        → Distinct ps
        → contains q ps ≡ true
        → (w : W) × ((sys (for_each body ps t)).store q ≡ (step ((sys t).store q) w).0)
    unfolding for_each
    store_inside [] q t d h = cc
    store_inside (p ∷ ps) q t d h = elim (Bool-cases (q == p)) [
      | inl e ↦ ((sys t).world, ground (arith, v.store p q t, store_outside ps q (body p t)))
      | inr n ↦
          let (w, ih) = store_inside ps q (body p t) d.1 (ground arith) in
          (w, ground (arith, ih, v.store p q t))
    ]

    worlds_congr :
        (f g : ℕ → ModuleInfo W C J) (ps : List ℕ) (w : W)
        → ((q : ℕ) → contains q ps ≡ true → f q ≡ g q)
        → worlds f ps w ≡ worlds g ps w
    unfolding for_each
    worlds_congr f g [] w h = refl
    worlds_congr f g (p ∷ ps) w h =
        let e : f p ≡ g p = h p (ground (arith, ==_self p)) in
        rw e (worlds_congr f g ps (step (g p) w).1 (λ q m. h q (ground arith)))

    pub world-for_each :
        (ps : List ℕ) (t : T)
        → Distinct ps
        → (sys (for_each body ps t)).world ≡ worlds (sys t).store ps (sys t).world
    unfolding for_each
    world-for_each [] t d = refl
    world-for_each (p ∷ ps) t d =
        let later =
          worlds_congr (sys (body p t)).store (sys t).store ps (sys (body p t)).world
            (λ q m. ground (arith, v.store p q t)) in
        world-for_each ps (body p t) d.1 ∙ later ∙ ap (worlds (sys t).store ps) (v.world p t)

    -- The loops from the last registered module to the first.
    pub world_reversed :
        (ps : List ℕ) (t : T)
        → Distinct ps
        → (sys (for_each body (reverse ps) t)).world
          ≡ foldr (λ p w. (step ((sys t).store p) w).1) (sys t).world ps
    world_reversed ps t d =
        world-for_each (reverse ps) t (Distinct-reverse ps d)
        ∙ for_each-reverse (λ p w. (step ((sys t).store p) w).1) ps (sys t).world

    -- `g` is what a visit makes of a module, if that does not depend on the world.
    pub store_reversed :
        (g : ModuleInfo W C J → ModuleInfo W C J)
        → ((m : ModuleInfo W C J) (w : W) → (step m w).0 ≡ g m)
        → (ps : List ℕ) (q : ℕ) (t : T) → Distinct ps
        → (sys (for_each body (reverse ps) t)).store q
          ≡ (if contains q ps then g ((sys t).store q) else (sys t).store q)
    store_reversed g fixed ps q t d = elim (Bool-cases (contains q ps)) [
      | inl e ↦
          let (w, at) =
            store_inside (reverse ps) q t (Distinct-reverse ps d) (contains-reverse q ps ∙ e) in
          rw e (at ∙ fixed ((sys t).store q) w)
      | inr e ↦ rw e (store_outside (reverse ps) q t (contains-reverse q ps ∙ e))
    ]
