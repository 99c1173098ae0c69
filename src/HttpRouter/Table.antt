-- ===== src/HttpRouter/Table.antt =====
-- The route table of src/modules/http/http_router.c as a finite map from method and path.
use strero.Prelude.{
  ◌+◌, ◌≤◌, ◌≡◌, ◌↔◌, refl, ◌∙◌, true, false, not, ◌||◌, Option, none, some, List, [], ◌∷◌, ◌++◌,
  length, length-append, leb, if◌then◌else◌, Bytes, str_eq_iff, pos, minus_one, is_negative, arith,
  Bool-cases, Option-cases, inl, inr,
}
use strero.HttpRouter.{
  Method, method_eq, is_valid_method, max_routes, Route, Request, Router, checked, has_route,
  override, add_route, http_router_register_route, http_router_register_routes, register_each,
  find_route, matches,
}

pub method_eq_iff : (a b : Method) → (method_eq a b ≡ true) ↔ (a ≡ b)
unfolding method_eq
method_eq_iff a b = ground arith

module _ {W : Type 0} where
  -- No two routes have the same method and path.
  abbrev pub KeysDistinct : List (Route W) → Type 0
  KeysDistinct [] = Unit
  KeysDistinct (r ∷ rs) = (has_route r.method r.path rs ≡ false) × KeysDistinct rs

  pub record IsValid (r : Router W) : Type 0 where
    pub bounded : length r.routes ≤ max_routes
    pub distinct : KeysDistinct r.routes
    pub empty_before_init : r.router_initialized ≡ false → r.routes ≡ []

  find_route-override :
      (new : Route W) (m : Method) (p : Bytes) (rs : List (Route W))
      → has_route new.method new.path rs ≡ true
      → find_route m p (override new rs) ≡ (if matches m p new then some new else find_route m p rs)
  unfolding find_route override has_route
  find_route-override new m p [] h = cc
  find_route-override new m p (r ∷ rs) h = ground (
    arith,
    find_route-override new m p rs,
    str_eq_iff r.path new.path,
    str_eq_iff r.path p,
    str_eq_iff new.path p,
    method_eq_iff r.method new.method,
    method_eq_iff r.method m,
    method_eq_iff new.method m,
  )

  find_route-snoc :
      (new : Route W) (m : Method) (p : Bytes) (rs : List (Route W))
      → has_route new.method new.path rs ≡ false
      → find_route m p (rs ++ new ∷ []) ≡ (if matches m p new then some new else find_route m p rs)
  unfolding find_route has_route
  find_route-snoc new m p [] h = refl
  find_route-snoc new m p (r ∷ rs) h = ground (
    arith,
    find_route-snoc new m p rs,
    str_eq_iff r.path new.path,
    str_eq_iff r.path p,
    str_eq_iff new.path p,
    method_eq_iff r.method new.method,
    method_eq_iff r.method m,
    method_eq_iff new.method m,
  )

  length-override : (new : Route W) (rs : List (Route W)) → length (override new rs) ≡ length rs
  unfolding override
  length-override new [] = refl
  length-override new (r ∷ rs) = ground (arith, length-override new rs)

  has_route-override :
      (new : Route W) (m : Method) (p : Bytes) (rs : List (Route W))
      → has_route m p (override new rs) ≡ has_route m p rs
  unfolding override has_route
  has_route-override new m p [] = refl
  has_route-override new m p (r ∷ rs) = ground (arith, has_route-override new m p rs)

  override-KeysDistinct :
      (new : Route W) (rs : List (Route W)) → KeysDistinct rs → KeysDistinct (override new rs)
  unfolding override
  override-KeysDistinct new [] d = tt
  override-KeysDistinct new (r ∷ rs) d = elim (Bool-cases (matches new.method new.path r)) [
    | inl e ↦ rw e d
    | inr e ↦
        rw e (has_route-override new r.method r.path rs ∙ d.0, override-KeysDistinct new rs d.1)
  ]

  has_route-snoc :
      (m : Method) (p : Bytes) (rs : List (Route W)) (new : Route W)
      → has_route m p (rs ++ new ∷ []) ≡ (has_route m p rs || matches m p new)
  unfolding has_route
  has_route-snoc m p [] new = ground arith
  has_route-snoc m p (r ∷ rs) new = ground (arith, has_route-snoc m p rs new)

  KeysDistinct-snoc :
      (rs : List (Route W)) (new : Route W)
      → KeysDistinct rs
      → has_route new.method new.path rs ≡ false
      → KeysDistinct (rs ++ new ∷ [])
  unfolding has_route
  KeysDistinct-snoc [] new d h = (refl, tt)
  KeysDistinct-snoc (r ∷ rs) new d h = (
    ground (
      arith,
      has_route-snoc r.method r.path rs new,
      str_eq_iff r.path new.path,
      str_eq_iff new.path r.path,
      method_eq_iff r.method new.method,
      method_eq_iff new.method r.method,
    ),
    KeysDistinct-snoc rs new d.1 (ground arith),
  )

  pub add_route-IsValid :
      {r : Router W} (new : Route W)
      → IsValid r
      → r.router_initialized ≡ true
      → IsValid (add_route new r).1
  unfolding add_route
  add_route-IsValid {r} new v i = ground (
    arith,
    length-override new r.routes,
    length-append r.routes (new ∷ []),
    override-KeysDistinct new r.routes,
    KeysDistinct-snoc r.routes new,
  )

  -- A registration keeps the table valid.
  pub http_router_register_route-IsValid :
      {r : Router W} (q : Request W) → IsValid r → IsValid (http_router_register_route q r).1
  unfolding http_router_register_route
  http_router_register_route-IsValid {r} q v = elim (Bool-cases r.router_initialized) [
    | inl ready ↦ elim (Option-cases (checked q)) [
      | inl bad ↦ simp (ready, bad) v
      | inr (new, good) ↦ simp (ready, good) (add_route-IsValid new v ready)
    ]
    | inr down ↦ simp down v
  ]

  -- A route that is registered and accepted is found under its
  -- method and path afterwards, in place of an older one if there was one, and any other method
  -- and path finds what it found before. The number of routes grows by one exactly if the method
  -- and path are new.
  pub find_route-register :
      (r : Router W) (q : Request W) (new : Route W) (m : Method) (p : Bytes)
      → checked q ≡ some new
      → (http_router_register_route q r).0 ≡ pos 0
      → let r' = (http_router_register_route q r).1 in
        (find_route m p r'.routes ≡ (if matches m p new then some new else find_route m p r.routes))
        × (length r'.routes ≡ (
            if has_route new.method new.path r.routes
            then length r.routes
            else length r.routes + 1))
  unfolding http_router_register_route add_route
  find_route-register r q new m p good ok = ground (
    arith,
    length-override new r.routes,
    length-append r.routes (new ∷ []),
    find_route-override new m p r.routes,
    find_route-snoc new m p r.routes,
  )

  -- A registration is refused, with the table unchanged, exactly if the router is not initialised,
  -- an argument is NULL, the table is full, or the method is invalid. A full table refuses also
  -- what would only replace a handler.
  pub http_router_register_route_refused :
      (r : Router W) (q : Request W)
      → let refused = not r.router_initialized || (elim (checked q) [
        | none ↦ true
        | some new ↦ leb max_routes (length r.routes) || not (is_valid_method new.method)
      ]) in
        http_router_register_route q r
        ≡ (if refused then (minus_one, r) else (pos 0, (http_router_register_route q r).1))
  unfolding http_router_register_route add_route
  http_router_register_route_refused r q = ground arith

  register_each-IsValid :
      (r : Router W) (qs : List (Request W)) → IsValid r → IsValid (register_each qs r).1
  unfolding register_each
  register_each-IsValid r [] v = v
  register_each-IsValid r (q ∷ qs) v =
      elim (Bool-cases (is_negative (http_router_register_route q r).0)) [
        | inl failed ↦ rw failed (http_router_register_route-IsValid q v)
        | inr ok ↦ rw ok (
            register_each-IsValid (http_router_register_route q r).1 qs
              (http_router_register_route-IsValid q v))
      ]

  -- `http_router_register_routes` keeps the table valid, also when it stops half way.
  pub http_router_register_routes-IsValid :
      {r : Router W} (qs : Option (List (Request W)))
      → IsValid r
      → IsValid (http_router_register_routes qs r).1
  unfolding http_router_register_routes
  http_router_register_routes-IsValid none v = v
  http_router_register_routes-IsValid {r} (some qs) v = register_each-IsValid r qs v
