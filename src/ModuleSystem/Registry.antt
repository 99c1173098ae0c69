-- ===== src/ModuleSystem/Registry.antt =====
-- The registry of src/module_system.c: its invariant, and what registration and lookup promise.
use strero.Prelude.{
  ℕ, leb, ◌≤◌, ◌≡◌, ◌∙◌, refl, sym, ap, true, false, ◌||◌, Option, none, some, List, [], ◌∷◌, ◌++◌,
  length, length-append, contains, Distinct, Bytes, str_eq_iff, pos, ==_iff, leb-false, arith, inl,
  inr, Bool-cases,
}
use strero.ModuleSystem.{
  ModuleInfo, ModuleState, System, max_modules, registered, module_system_init, module_register,
  has_name, register_checked, set_state,
}

module _ {W C J : Type 0} where
  -- The names of the listed modules are pairwise different.
  abbrev pub NamesDistinct : (ℕ → ModuleInfo W C J) → List ℕ → Type 0
  NamesDistinct store [] = Unit
  NamesDistinct store (p ∷ ps) = (has_name store (store p).name ps ≡ false) × NamesDistinct store ps

  pub record IsValid (s : System W C J) : Type 0 where
    pub bounded : length s.modules ≤ max_modules
    pub distinct : NamesDistinct s.store s.modules
    pub empty_before_init : s.system_initialized ≡ false → s.modules ≡ []

  abbrev pub SameNames : (ℕ → ModuleInfo W C J) → (ℕ → ModuleInfo W C J) → Type 0
  SameNames f g = (q : ℕ) → (f q).name ≡ (g q).name

  pub has_name-congr :
      (f g : ℕ → ModuleInfo W C J) (n : Bytes) (ps : List ℕ)
      → SameNames f g
      → has_name f n ps ≡ has_name g n ps
  unfolding has_name
  has_name-congr f g n [] h = refl
  has_name-congr f g n (p ∷ ps) h = rw (h p, has_name-congr f g n ps h)

  pub NamesDistinct-congr :
      (f g : ℕ → ModuleInfo W C J) (ps : List ℕ)
      → SameNames f g
      → NamesDistinct f ps
      → NamesDistinct g ps
  NamesDistinct-congr f g [] h d = tt
  NamesDistinct-congr f g (p ∷ ps) h d =
      (rw (← h p, ← has_name-congr f g (f p).name ps h) d.0, NamesDistinct-congr f g ps h d.1)

  has_name-append :
      (f : ℕ → ModuleInfo W C J) (n : Bytes) (xs ys : List ℕ)
      → has_name f n (xs ++ ys) ≡ (has_name f n xs || has_name f n ys)
  unfolding has_name
  has_name-append f n [] ys = refl
  has_name-append f n (x ∷ xs) ys = ground (arith, has_name-append f n xs ys)

  NamesDistinct-snoc :
      (f : ℕ → ModuleInfo W C J) (xs : List ℕ) (p : ℕ)
      → NamesDistinct f xs
      → has_name f (f p).name xs ≡ false
      → NamesDistinct f (xs ++ p ∷ [])
  unfolding has_name
  NamesDistinct-snoc f [] p d h = (refl, tt)
  NamesDistinct-snoc f (x ∷ xs) p d h = (
    ground (
      arith,
      has_name-append f (f x).name xs (p ∷ []),
      str_eq_iff (f p).name (f x).name,
      str_eq_iff (f x).name (f p).name,
    ),
    NamesDistinct-snoc f xs p d.1 (ground arith),
  )

  pub has_name-contains :
      (f : ℕ → ModuleInfo W C J) (p : ℕ) (ps : List ℕ)
      → contains p ps ≡ true
      → has_name f (f p).name ps ≡ true
  unfolding has_name
  has_name-contains f p [] h = cc
  has_name-contains f p (q ∷ qs) h =
      ground (arith, has_name-contains f p qs, str_eq_iff (f q).name (f p).name)

  -- Modules with different names are different objects.
  pub NamesDistinct-Distinct :
      (f : ℕ → ModuleInfo W C J) (ps : List ℕ) → NamesDistinct f ps → Distinct ps
  NamesDistinct-Distinct f [] d = tt
  NamesDistinct-Distinct f (p ∷ ps) d =
      (ground (arith, has_name-contains f p ps), NamesDistinct-Distinct f ps d.1)

  pub set_state-SameNames :
      (s : System W C J) (p : ℕ) (st : ModuleState) → SameNames s.store (set_state s p st).store
  set_state-SameNames s p st q = ground (arith, ==_iff q p)

  -- `module_system_init` succeeds, and leaves the system initialised with the modules it had, if
  -- the registry is valid.
  pub module_system_init_lem :
      {s : System W C J}
      → IsValid s
      → let (r, s') = module_system_init s in
        (r ≡ pos 0) × (s' ≡ record s { system_initialized = true })
  unfolding module_system_init
  module_system_init_lem v = ground arith

  pub module_system_init-IsValid : {s : System W C J} → IsValid s → IsValid (module_system_init s).1
  unfolding module_system_init
  module_system_init-IsValid {s} v = elim (Bool-cases s.system_initialized) [
    | inl e ↦ simp e v
    | inr e ↦
        simp e (record { bounded = omega arith; distinct = tt; empty_before_init = λ h. refl })
  ]

  register_checked-IsValid :
      {s : System W C J} (p : ℕ)
      → IsValid s
      → s.system_initialized ≡ true
      → IsValid (register_checked p s).1
  unfolding register_checked
  register_checked-IsValid {s} p v h = elim (Bool-cases (leb max_modules (length s.modules))) [
    | inl full ↦ simp full v
    | inr room ↦ elim (Bool-cases (has_name s.store (s.store p).name s.modules)) [
      | inl taken ↦ simp (room, taken) v
      | inr fresh ↦
          simp (room, fresh)
            (record {
              bounded = omega (arith, length-append s.modules (p ∷ []), leb-false _ _ room);
              distinct =
                  NamesDistinct-snoc new s.modules p
                    (NamesDistinct-congr s.store new s.modules same v.distinct)
                    (ap (λ n. has_name new n s.modules) (sym (same p))
                      ∙ sym (has_name-congr s.store new (s.store p).name s.modules same)
                      ∙ fresh);
              empty_before_init = λ e. cc;
            })
    ]
  ]
    where
      new : ℕ → ModuleInfo W C J
      new = (set_state s p registered).store

      same : SameNames s.store new
      same = set_state-SameNames s p registered

  -- Registration keeps the registry valid, whether it is accepted or refused.
  pub module_register-IsValid :
      {s : System W C J} (p : Option ℕ) → IsValid s → IsValid (module_register p s).1
  unfolding module_register
  module_register-IsValid none v = v
  module_register-IsValid {s} (some p) v = elim (Bool-cases s.system_initialized) [
    | inl e ↦ simp e (register_checked-IsValid p v e)
    | inr e ↦
        let (ok, same) = module_system_init_lem v in
        simp (e, ok)
          (register_checked-IsValid p (module_system_init-IsValid v)
            (ap (λ (x : System W C J). x.system_initialized) same))
  ]
