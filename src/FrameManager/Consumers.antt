-- ===== src/FrameManager/Consumers.antt =====
-- The consumers and the lifecycle of src/frame_manager.c: the invariant, registration, and which
-- consumers a frame reaches.

use strero.Prelude.{
  ℕ, zero, suc, ◌≤◌, ◌≡◌, refl, ap, Bool, true, false, Option, none, some, List, [], ◌∷◌, length,
  length-append, ℤ, pos, negsuc, minus_one, All, All-append, arith,
}
use strero.FrameManager.{
  Consumer, Manager, max_frame_consumers, fs_chn_num, is_some, frame_manager_init,
  frame_manager_start, frame_manager_stop, frame_manager_cleanup, frame_manager_register_consumer,
  set_active, frame_manager_set_consumer_enabled, frame_manager_unregister_consumer,
}

module _ {W : Type 0} where
  abbrev pub HasCallback : Consumer W → Type 0
  HasCallback c = is_some c.callback ≡ true

  pub record IsValid (s : Manager W) : Type 0 where
    pub bounded : length s.consumers ≤ max_frame_consumers
    pub callbacks : All HasCallback s.consumers
    pub running_initialized : s.running ≡ true → s.initialized ≡ true
    pub channels : length s.stream_params ≡ fs_chn_num

  pub length-set_active :
      (cs : List (Consumer W)) (i : ℕ) (b : Bool) → length (set_active cs i b) ≡ length cs
  unfolding set_active
  length-set_active [] i b = refl
  length-set_active (c ∷ cs) zero b = refl
  length-set_active (c ∷ cs) (suc i) b = ap suc (length-set_active cs i b)

  set_active-callbacks :
      (cs : List (Consumer W)) (i : ℕ) (b : Bool)
      → All HasCallback cs
      → All HasCallback (set_active cs i b)
  unfolding set_active
  set_active-callbacks [] i b h = tt
  set_active-callbacks (c ∷ cs) zero b h = h
  set_active-callbacks (c ∷ cs) (suc i) b h = (h.0, set_active-callbacks cs i b h.1)

  pub register_consumer-IsValid :
      {s : Manager W} (c : Option (Consumer W))
      → IsValid s
      → IsValid (frame_manager_register_consumer c s).1
  unfolding frame_manager_register_consumer
  register_consumer-IsValid none v = v
  register_consumer-IsValid {s} (some c) v = ground (
    arith,
    length-append s.consumers (enabled ∷ []),
    All-append HasCallback s.consumers (enabled ∷ []),
  )
    where
      enabled : Consumer W
      enabled = record c { active = true }

  set_consumer_enabled-IsValid :
      {s : Manager W} (id : ℤ) (b : Bool)
      → IsValid s
      → IsValid (frame_manager_set_consumer_enabled id b s).1
  unfolding frame_manager_set_consumer_enabled
  set_consumer_enabled-IsValid (negsuc n) b v = v
  set_consumer_enabled-IsValid {s} (pos id) b v =
      ground (arith, length-set_active s.consumers id b, set_active-callbacks s.consumers id b)

  unregister_consumer-IsValid :
      {s : Manager W} (id : ℤ) → IsValid s → IsValid (frame_manager_unregister_consumer id s).1
  unfolding frame_manager_unregister_consumer
  unregister_consumer-IsValid (negsuc n) v = v
  unregister_consumer-IsValid {s} (pos id) v =
      ground
        (arith, length-set_active s.consumers id false, set_active-callbacks s.consumers id false)

  lifecycle-IsValid :
      {s : Manager W} (a b c : ℤ)
      → IsValid s
      → IsValid (frame_manager_init a b c s).1
        × IsValid (frame_manager_start a s).1
        × IsValid (frame_manager_stop s).1
        × IsValid (frame_manager_cleanup s).1
  unfolding frame_manager_init frame_manager_start frame_manager_stop frame_manager_cleanup
  lifecycle-IsValid a b c v = (ground arith, ground arith, ground arith, ground arith)

-- The calls of the interface, with what pthreads return in each.
pub data Call (W : Type 0) : Type 0 where
  init : ℤ → ℤ → ℤ → Call W
  start : ℤ → Call W
  stop cleanup : Call W
  register : Option (Consumer W) → Call W
  unregister : ℤ → Call W
  set_enabled : ℤ → Bool → Call W

module _ {W : Type 0} where
  unfoldable pub step : Call W → Manager W → Manager W
  step (init a b c) s = (frame_manager_init a b c s).1
  step (start a) s = (frame_manager_start a s).1
  step stop s = (frame_manager_stop s).1
  step cleanup s = (frame_manager_cleanup s).1
  step (register c) s = (frame_manager_register_consumer c s).1
  step (unregister id) s = (frame_manager_unregister_consumer id s).1
  step (set_enabled id b) s = (frame_manager_set_consumer_enabled id b s).1

  unfoldable pub run : List (Call W) → Manager W → Manager W
  unfolding step
  run [] s = s
  run (c ∷ cs) s = run cs (step c s)

  step-IsValid : {s : Manager W} (c : Call W) → IsValid s → IsValid (step c s)
  unfolding step
  step-IsValid (init a b c) v = (lifecycle-IsValid a b c v).0
  step-IsValid (start a) v = (lifecycle-IsValid a a a v).1
  step-IsValid stop v = (lifecycle-IsValid (pos 0) (pos 0) (pos 0) v).2
  step-IsValid cleanup v = (lifecycle-IsValid (pos 0) (pos 0) (pos 0) v).3
  step-IsValid (register c) v = register_consumer-IsValid c v
  step-IsValid (unregister id) v = unregister_consumer-IsValid id v
  step-IsValid (set_enabled id b) v = set_consumer_enabled-IsValid id b v

  -- Every sequence of calls keeps the state valid: at most 8 consumers, none with a NULL
  -- callback, the thread running only if the manager is initialised, and 4 sets of parameters.
  pub run-IsValid : (cs : List (Call W)) (s : Manager W) → IsValid s → IsValid (run cs s)
  unfolding run
  run-IsValid [] s v = v
  run-IsValid (c ∷ cs) s v = run-IsValid cs (step c s) (step-IsValid c v)

  length-step : (c : Call W) (s : Manager W) → length s.consumers ≤ length (step c s).consumers
  unfolding step frame_manager_init frame_manager_start frame_manager_stop frame_manager_cleanup
      frame_manager_register_consumer frame_manager_unregister_consumer
      frame_manager_set_consumer_enabled
  length-step (register (some c)) s =
      ground (arith, length-append s.consumers ((record c { active = true }) ∷ []))
  length-step (unregister (pos id)) s = ground (arith, length-set_active s.consumers id false)
  length-step (set_enabled (pos id) b) s = ground (arith, length-set_active s.consumers id b)
  length-step _ s = ground arith

  length-run :
      (cs : List (Call W)) (s : Manager W) → length s.consumers ≤ length (run cs s).consumers
  unfolding run
  length-run [] s = omega arith
  length-run (c ∷ cs) s = omega (arith, length-step c s, length-run cs (step c s))

  -- Once 8 consumers have been registered, no sequence of calls, unregistrations and restarts
  -- included, makes room for another one: every later registration returns -1.
  pub slots_never_freed :
      (cs : List (Call W)) (s : Manager W) (c : Option (Consumer W))
      → max_frame_consumers ≤ length s.consumers
      → frame_manager_register_consumer c (run cs s) ≡ (minus_one, run cs s)
  unfolding frame_manager_register_consumer
  slots_never_freed cs s none h = refl
  slots_never_freed cs s (some c) h = ground (arith, length-run cs s)
