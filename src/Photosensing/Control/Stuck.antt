-- ===== src/Photosensing/Control/Stuck.antt =====
-- The way back to the day of src/modules/photosensing/photosensing_module.c, where ircut_status is
-- false.
use strero.Prelude.{ℕ, ◌+◌, ◌≡◌, refl, true, false, Bool-cases, inl, inr, ltb, ℤ, is_zero}
use strero.Photosensing.{Floats, Gains, Board, Sensing, is_night_running, is_day, is_night}
use strero.Photosensing.Ircut.{move_ircut, photosensing_set_ircut}
use strero.Photosensing.Control.{
  count_night, switch_to_night, take_samples, detect_night, may_be_day, detect_day, sense,
  control_thread,
}
use strero.Photosensing.Control.Rounds.{control_thread-keeps}

-- By night, with a filter whose state for the night does not count as switched.
abbrev IsStuck : {F : Type 0} → Sensing F → Type 0
IsStuck s =
    (is_night s.current_mode ≡ true)
    × (s.config.ircut_enabled ≡ true)
    × (is_zero s.config.ircut_night_state ≡ false)
    × (s.ircut_status ≡ false)

module _ {F W : Type 0} (floats : Floats F) (board : Board F W) where
  count_night-IsStuck :
      (s : Sensing F)
      → s.config.ircut_enabled ≡ true
      → is_zero s.config.ircut_night_state ≡ false
      → s.ircut_status ≡ false
      → IsStuck (count_night floats board s)
  unfolding count_night is_night
  count_night-IsStuck s enabled night_state closed = elim (Bool-cases (is_day s.current_mode)) [
    | inl by_day ↦ rw by_day (refl, enabled, night_state, closed)
    | inr by_night ↦ rw by_night (refl, enabled, night_state, closed)
  ]

  move_ircut-enabled :
      (state : ℤ) (s : Sensing F) (w : W)
      → s.config.ircut_enabled ≡ true
      → move_ircut floats board state s w ≡ (
        record s { ircut_status = is_zero state },
        (photosensing_set_ircut floats board s.config state w).1,
      )
  unfolding move_ircut
  move_ircut-enabled state s w enabled = rw enabled refl

  switch_to_night-IsStuck :
      (s : Sensing F) (w : W) → IsStuck s → IsStuck (switch_to_night floats board s w).0
  unfolding switch_to_night
  switch_to_night-IsStuck s w b =
      elim (Bool-cases (is_night_running (board.get_running_mode w).0)) [
        | inl already ↦ rw already b
        | inr change ↦
            rw (change, move_ircut-enabled s.config.ircut_night_state s _ b.1)
              (count_night-IsStuck _ b.1 b.2 b.2)
      ]

  detect_night-IsStuck :
      (iso : F) (gains : Gains F) (s : Sensing F) (w : W)
      → IsStuck s
      → IsStuck (detect_night floats board iso gains s w).0.0
  unfolding detect_night take_samples
  detect_night-IsStuck iso gains s w b =
      elim (Bool-cases (floats.less s.config.night_iso_threshold iso)) [
        | inl dark ↦ elim (Bool-cases (ltb s.config.night_count_threshold (s.night_count + 1))) [
          | inl long ↦ rw (dark, long) (switch_to_night-IsStuck _ w b)
          | inr short ↦ rw (dark, short) b
        ]
        | inr light ↦ rw light b
      ]

  may_be_day-closed :
      (iso : F) (gains : Gains F) (s : Sensing F)
      → s.ircut_status ≡ false
      → may_be_day floats board iso gains s ≡ false
  unfolding may_be_day
  may_be_day-closed iso gains s closed =
      elim (Bool-cases (floats.less (floats.through_int iso) s.config.day_iso_threshold)) [
        | inl bright ↦ rw (bright, closed) refl
        | inr dark ↦ rw dark refl
      ]

  detect_day-IsStuck :
      (iso : F) (gains : Gains F) (s : Sensing F) (w : W)
      → IsStuck s
      → IsStuck (detect_day floats board iso gains s w).0
  unfolding detect_day
  detect_day-IsStuck iso gains s w b = rw (may_be_day-closed iso gains s b.3) b

  sense-IsStuck :
      (iso : F) (gains : Gains F) (s : Sensing F) (w : W)
      → IsStuck s
      → IsStuck (sense floats board iso gains s w).0
  unfolding sense
  sense-IsStuck iso gains s w b =
      detect_day-IsStuck iso _ _ _ (detect_night-IsStuck iso gains _ w b)

  -- A camera that is by night with ircut_status false, and whose filter is enabled with a state for
  -- the night other than 0, stays by night however many rounds the thread runs and whatever the
  -- image processor answers.
  pub control_thread-IsStuck :
      (rounds : ℕ) (s : Sensing F) (w : W)
      → is_night s.current_mode ≡ true
      → s.config.ircut_enabled ≡ true
      → is_zero s.config.ircut_night_state ≡ false
      → s.ircut_status ≡ false
      → is_night (control_thread floats board rounds s w).0.current_mode ≡ true
  control_thread-IsStuck rounds s w by_night enabled night_state closed =
      (control_thread-keeps floats board IsStuck sense-IsStuck rounds s w
        (by_night, enabled, night_state, closed)).0
