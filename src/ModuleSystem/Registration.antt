-- ===== src/ModuleSystem/Registration.antt =====
-- What `module_register` and `module_get_by_name` of src/module_system.c promise together.
use strero.Prelude.{
  ℕ, ◌≡◌, ◌∙◌, refl, ap, Bool, true, false, not, ◌&&◌, some, List, [], ◌∷◌, ◌++◌, length, contains,
  Bytes, str_eq, str_eq_iff, pos, minus_one, ◌==◌, ltb, ==_iff, if◌then◌else◌, arith, inl, inr,
  Bool-cases,
}
use strero.ModuleSystem.{
  ModuleInfo, System, max_modules, registered, module_register, has_name, register_checked,
  module_get_by_name, find_name, set_state,
}
use strero.ModuleSystem.Registry.{
  NamesDistinct, IsValid, SameNames, has_name-contains, module_system_init_lem,
}

module _ {W C J : Type 0} where
  -- There is room, and no registered module has the name.
  abbrev pub accepts : System W C J → ℕ → Bool
  accepts s p =
      ltb (length s.modules) max_modules && not (has_name s.store (s.store p).name s.modules)

  register_checked_lem :
      (s : System W C J) (p : ℕ)
      → register_checked p s ≡ (
          if accepts s p
          then (pos 0, set_state (record s { modules = s.modules ++ p ∷ [] }) p registered)
          else (minus_one, s))
  unfolding register_checked
  register_checked_lem s p = ground arith

  module_register-some :
      {s : System W C J} (p : ℕ)
      → IsValid s
      → module_register (some p) s ≡ register_checked p (record s { system_initialized = true })
  unfolding module_register
  module_register-some {s} p v = elim (Bool-cases s.system_initialized) [
    | inl e ↦ simp e (ap (register_checked p) (λ i. record s { system_initialized = e i }))
    | inr e ↦
        let (ok, same) = module_system_init_lem v in simp (e, ok) (ap (register_checked p) same)
  ]

  -- From a valid registry, registration of a module returns 0 exactly if there is room and the name
  -- is new; it then appends the module, in state REGISTERED. Otherwise it returns -1 and leaves the
  -- list of modules and every module as they were.
  pub module_register_lem :
      {s : System W C J} (p : ℕ)
      → IsValid s
      → let (r, s') = module_register (some p) s in
        (r ≡ (if accepts s p then pos 0 else minus_one))
        × (s'.modules ≡ (if accepts s p then s.modules ++ p ∷ [] else s.modules))
        × ((q : ℕ)
            → s'.store q ≡ (
                if accepts s p && q == p
                then record (s.store p) { state = registered }
                else s.store q))
  module_register_lem {s} p v = simp (module_register-some p v, register_checked_lem) (ground arith)

  find_name-snoc :
      (f : ℕ → ModuleInfo W C J) (n : Bytes) (ps : List ℕ) (p : ℕ)
      → has_name f (f p).name ps ≡ false
      → find_name f n (ps ++ p ∷ []) ≡ (if str_eq (f p).name n then some p else find_name f n ps)
  unfolding find_name has_name
  find_name-snoc f n [] p h = refl
  find_name-snoc f n (q ∷ qs) p h = ground (
    arith,
    find_name-snoc f n qs p,
    str_eq_iff (f q).name n,
    str_eq_iff (f p).name n,
    str_eq_iff (f q).name (f p).name,
  )

  find_name-congr :
      (f g : ℕ → ModuleInfo W C J) (n : Bytes) (ps : List ℕ)
      → SameNames f g
      → find_name f n ps ≡ find_name g n ps
  unfolding find_name
  find_name-congr f g n [] h = refl
  find_name-congr f g n (p ∷ ps) h = rw (h p, find_name-congr f g n ps h)

  -- After a registration that is accepted, the module is found under its name, and every other
  -- name finds what it found before.
  pub module_get_by_name-module_register :
      {s : System W C J} (p : ℕ) (n : Bytes)
      → IsValid s
      → (module_register (some p) s).0 ≡ pos 0
      → module_get_by_name (some n) (module_register (some p) s).1
        ≡ (if str_eq (s.store p).name n then some p else module_get_by_name (some n) s)
  unfolding module_get_by_name
  module_get_by_name-module_register {s} p n v ok =
      let (r, ms, st) = module_register_lem p v in
      let acc : accepts s p ≡ true = ground (arith, r) in
      let ms' : after.modules ≡ s.modules ++ p ∷ [] = ground (arith, ms) in
      ap (find_name after.store n) ms'
      ∙ find_name-congr after.store s.store n (s.modules ++ p ∷ [])
          (λ q. ground (arith, st q, ==_iff q p))
      ∙ find_name-snoc s.store n s.modules p (ground arith)
    where
      after : System W C J
      after = (module_register (some p) s).1

  find_name_self :
      (f : ℕ → ModuleInfo W C J) (p : ℕ) (ps : List ℕ)
      → NamesDistinct f ps
      → contains p ps ≡ true
      → find_name f (f p).name ps ≡ some p
  unfolding find_name
  find_name_self f p [] d h = cc
  find_name_self f p (q ∷ qs) d h = ground (
    arith,
    find_name_self f p qs,
    has_name-contains f p qs,
    str_eq_iff (f q).name (f p).name,
    ap (λ (x : ℕ). (f x).name) {x = p} {y = q},
  )

  -- In a valid registry every registered module is what its name finds.
  pub module_get_by_name_registered :
      {s : System W C J} (p : ℕ)
      → IsValid s
      → contains p s.modules ≡ true
      → module_get_by_name (some (s.store p).name) s ≡ some p
  unfolding module_get_by_name
  module_get_by_name_registered {s} p v h = find_name_self s.store p s.modules v.distinct h
