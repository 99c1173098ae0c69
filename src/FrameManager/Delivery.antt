-- ===== src/FrameManager/Delivery.antt =====
-- Which consumers a frame of src/frame_manager.c reaches, and in which order.
use mathlib.Core.List.{foldl}
use strero.Prelude.{
  ℕ, zero, suc, ◌<◌, ◌≡◌, refl, ap, Bool, true, false, some, List, [], ◌∷◌, ◌++◌, length,
  if◌then◌else◌, pos, arith, inl, inr, Bool-cases,
}
use strero.FrameManager.{
  Consumer, Manager, FrameInfo, mask_has, wants, count_wanting, call_consumer,
  frame_manager_get_consumer_count, frame_manager_register_consumer, set_active,
  frame_manager_set_consumer_enabled, frame_manager_unregister_consumer, distribute,
  distribute_frame_to_consumers,
}

module _ {W : Type 0} where
  -- The consumers that are active and want a channel, in order of registration.
  pub wanting : ℕ → List (Consumer W) → List (Consumer W)
  wanting channel [] = []
  wanting channel (c ∷ cs) =
      let rest = wanting channel cs in if wants channel c then c ∷ rest else rest

  distribute-wanting :
      (frame : FrameInfo) (cs : List (Consumer W)) (w : W)
      → distribute frame cs w ≡ foldl (λ w c. call_consumer c frame w) w (wanting frame.channel cs)
  unfolding distribute wanting
  distribute-wanting frame [] w = refl
  distribute-wanting frame (c ∷ cs) w = elim (Bool-cases (wants frame.channel c)) [
    | inl e ↦ rw e (distribute-wanting frame cs (call_consumer c frame w))
    | inr e ↦ rw e (distribute-wanting frame cs w)
  ]

  length-wanting :
      (channel : ℕ) (cs : List (Consumer W))
      → length (wanting channel cs) ≡ count_wanting channel cs
  unfolding wanting count_wanting
  length-wanting channel [] = refl
  length-wanting channel (c ∷ cs) = ground (arith, length-wanting channel cs)

  -- A frame calls exactly the consumers that are active and have the bit of its channel in their
  -- mask, once each, in order of registration; `frame_manager_get_consumer_count` is their number.
  pub distribute_lem :
      (frame : FrameInfo) (s : Manager W) (w : W)
      → (distribute_frame_to_consumers frame s w
          ≡ foldl (λ w c. call_consumer c frame w) w (wanting frame.channel s.consumers))
        × (frame_manager_get_consumer_count frame.channel s
            ≡ length (wanting frame.channel s.consumers))
  unfolding distribute_frame_to_consumers frame_manager_get_consumer_count
  distribute_lem frame s w = (
    distribute-wanting frame s.consumers w,
    ground (arith, length-wanting frame.channel s.consumers),
  )

  -- The list without its element at an index.
  pub without : List (Consumer W) → ℕ → List (Consumer W)
  without [] i = []
  without (c ∷ cs) zero = cs
  without (c ∷ cs) (suc i) = c ∷ without cs i

  distribute-set_active :
      (frame : FrameInfo) (cs : List (Consumer W)) (i : ℕ) (w : W)
      → distribute frame (set_active cs i false) w ≡ distribute frame (without cs i) w
  unfolding distribute set_active without
  distribute-set_active frame [] i w = refl
  distribute-set_active frame (c ∷ cs) zero w = refl
  distribute-set_active frame (c ∷ cs) (suc i) w =
      distribute-set_active frame cs i
        (if wants frame.channel c then call_consumer c frame w else w)

  set_active_twice :
      (cs : List (Consumer W)) (i : ℕ) (a b : Bool)
      → set_active (set_active cs i a) i b ≡ set_active cs i b
  unfolding set_active
  set_active_twice [] i a b = refl
  set_active_twice (c ∷ cs) zero a b = refl
  set_active_twice (c ∷ cs) (suc i) a b = ap (λ l. c ∷ l) (set_active_twice cs i a b)

  -- After a consumer is unregistered every frame does what it does without that consumer, and so
  -- for one that is disabled.
  pub distribute-unregister :
      (frame : FrameInfo) (s : Manager W) (id : ℕ) (w : W)
      → id < length s.consumers
      → (distribute_frame_to_consumers frame (frame_manager_unregister_consumer (pos id) s).1 w
          ≡ distribute frame (without s.consumers id) w)
        × (distribute_frame_to_consumers frame
              (frame_manager_set_consumer_enabled (pos id) false s).1
              w
            ≡ distribute frame (without s.consumers id) w)
  unfolding distribute_frame_to_consumers frame_manager_unregister_consumer
      frame_manager_set_consumer_enabled
  distribute-unregister frame s id w h =
      ground (arith, distribute-set_active frame s.consumers id w)

  distribute-snoc :
      (frame : FrameInfo) (cs : List (Consumer W)) (c : Consumer W) (w : W)
      → distribute frame (cs ++ c ∷ []) w ≡ distribute frame (c ∷ []) (distribute frame cs w)
  unfolding distribute
  distribute-snoc frame [] c w = refl
  distribute-snoc frame (d ∷ ds) c w =
      distribute-snoc frame ds c (if wants frame.channel d then call_consumer d frame w else w)

  -- A registration that returns an ID adds the consumer behind the others, active whatever its
  -- `active` field said: a frame does what it did before, and then calls the new consumer if the
  -- mask has its channel.
  pub distribute-register :
      (frame : FrameInfo) (s : Manager W) (c : Consumer W) (id : ℕ) (w : W)
      → (frame_manager_register_consumer (some c) s).0 ≡ pos id
      → (id ≡ length s.consumers)
        × (distribute_frame_to_consumers frame (frame_manager_register_consumer (some c) s).1 w ≡ (
            let w' = distribute_frame_to_consumers frame s w in
            if mask_has c.channel_mask frame.channel then call_consumer c frame w' else w'))
  unfolding distribute distribute_frame_to_consumers frame_manager_register_consumer
  distribute-register frame s c id w h =
      ground (arith, distribute-snoc frame s.consumers (record c { active = true }) w)
