-- ===== src/Photosensing/Control/Rounds.antt =====
-- Invariants of the thread of src/modules/photosensing/photosensing_module.c, from those of a round.
use strero.Prelude.{ℕ, zero, suc, subst, Option-cases, inl, inr, Option, none, some}
use strero.Photosensing.{Floats, Gains, Board, Sensing}
use strero.Photosensing.Control.{sense, with_gains, with_ev, control_round, control_thread}

-- A round that does not end the thread keeps P.
unfoldable AfterRound : {F W : Type 0} → (Sensing F → Type 0) → Option (Sensing F × W) → Type 0
AfterRound P none = Unit
AfterRound P (some r) = P r.0

module _ {F W : Type 0} (floats : Floats F) (board : Board F W) where
  module _ (P : Sensing F → Type 0)
      (sense-P : (iso : F) (gains : Gains F) (s : Sensing F) (w : W)
        → P s
        → P (sense floats board iso gains s w).0) where
    with_gains-keeps :
        (ev : ℕ) (s : Sensing F) (r : Option (Gains F) × W)
        → P s
        → AfterRound P (with_gains floats board ev s r)
    unfolding with_gains AfterRound
    with_gains-keeps ev s (none, w) p = tt
    with_gains-keeps ev s (some gains, w) p = sense-P _ gains s w p

    with_ev-keeps :
        (s : Sensing F) (r : Option ℕ × W) → P s → AfterRound P (with_ev floats board s r)
    unfolding with_ev AfterRound
    with_ev-keeps s (none, w) p = tt
    with_ev-keeps s (some ev, w) p = with_gains-keeps ev s (board.get_gains w) p

    control_round-keeps :
        (s : Sensing F) (w : W) → P s → AfterRound P (control_round floats board s w)
    unfolding control_round
    control_round-keeps s w p = with_ev-keeps s (board.get_ev w) p

    -- What a round keeps, the thread keeps.
    pub control_thread-keeps :
        (rounds : ℕ) (s : Sensing F) (w : W) → P s → P (control_thread floats board rounds s w).0
    unfolding control_thread AfterRound
    control_thread-keeps zero s w p = p
    control_thread-keeps (suc rounds) s w p = elim (Option-cases (control_round floats board s w)) [
      | inl ended ↦ rw (ended, control_thread) p
      | inr (next, ran) ↦
          rw (ran, control_thread)
            (control_thread-keeps rounds next.0 next.1
              (subst (AfterRound P) ran (control_round-keeps s w p)))
    ]
