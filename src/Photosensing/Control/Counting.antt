-- ===== src/Photosensing/Control/Counting.antt =====
-- The switches between day and night of src/modules/photosensing/photosensing_module.c, as its
-- statistics count them.
use strero.Prelude.{ℕ, ◌+◌, ◌%◌, ◌<◌, ◌≡◌, not, Bool-cases, inl, inr, ltb, if◌then◌else◌, ℤ, arith}
use strero.Photosensing.{Floats, Gains, Board, Mode, Sensing, is_night_running, is_day, is_night}
use strero.Photosensing.Ircut.{move_ircut}
use strero.Photosensing.Control.{
  count_switch, count_night, count_day, switch_to_night, switch_to_day, take_samples, detect_night,
  may_be_day, next_day_count, detect_day, sense, control_thread,
}
use strero.Photosensing.Control.Rounds.{control_thread-keeps}

-- One more switch to night than to day exactly by night, counted modulo 2^32.
unfoldable pub Balanced : Mode → ℕ → ℕ → ℕ → Type 0
Balanced mode switches to_night to_day =
    (is_day mode ≡ not (is_night mode))
    × (switches ≡ (to_night + to_day) % 4294967296)
    × (to_night ≡ (to_day + (if is_night mode then 1 else 0)) % 4294967296)
    × (to_day < 4294967296)

abbrev pub IsBalanced : {F : Type 0} → Sensing F → Type 0
IsBalanced s =
    Balanced s.current_mode s.stats.mode_switches s.stats.day_to_night_switches
      s.stats.night_to_day_switches

module _ {F W : Type 0} (floats : Floats F) (board : Board F W) where
  count_night-IsBalanced : (s : Sensing F) → IsBalanced s → IsBalanced (count_night floats board s)
  unfolding count_night is_day is_night count_switch Balanced
  count_night-IsBalanced s b = ground arith

  count_day-IsBalanced : (s : Sensing F) → IsBalanced s → IsBalanced (count_day floats board s)
  unfolding count_day is_day is_night count_switch Balanced
  count_day-IsBalanced s b = ground arith

  move_ircut-IsBalanced :
      (state : ℤ) (s : Sensing F) (w : W)
      → IsBalanced s
      → IsBalanced (move_ircut floats board state s w).0
  unfolding move_ircut
  move_ircut-IsBalanced state s w b = elim (Bool-cases s.config.ircut_enabled) [
    | inl enabled ↦ rw enabled b
    | inr disabled ↦ rw disabled b
  ]

  switch_to_night-IsBalanced :
      (s : Sensing F) (w : W) → IsBalanced s → IsBalanced (switch_to_night floats board s w).0
  unfolding switch_to_night
  switch_to_night-IsBalanced s w b =
      elim (Bool-cases (is_night_running (board.get_running_mode w).0)) [
        | inl already ↦ rw already b
        | inr change ↦ rw change (count_night-IsBalanced _ (move_ircut-IsBalanced _ s _ b))
      ]

  switch_to_day-IsBalanced :
      (s : Sensing F) (w : W) → IsBalanced s → IsBalanced (switch_to_day floats board s w).0
  unfolding switch_to_day
  switch_to_day-IsBalanced s w b =
      elim (Bool-cases (is_night_running (board.get_running_mode w).0)) [
        | inl change ↦ rw change (count_day-IsBalanced _ (move_ircut-IsBalanced _ s _ b))
        | inr already ↦ rw already b
      ]

  detect_night-IsBalanced :
      (iso : F) (gains : Gains F) (s : Sensing F) (w : W)
      → IsBalanced s
      → IsBalanced (detect_night floats board iso gains s w).0.0
  unfolding detect_night take_samples
  detect_night-IsBalanced iso gains s w b =
      elim (Bool-cases (floats.less s.config.night_iso_threshold iso)) [
        | inl dark ↦ elim (Bool-cases (ltb s.config.night_count_threshold (s.night_count + 1))) [
          | inl long ↦ rw (dark, long) (switch_to_night-IsBalanced _ w b)
          | inr short ↦ rw (dark, short) b
        ]
        | inr light ↦ rw light b
      ]

  detect_day-IsBalanced :
      (iso : F) (gains : Gains F) (s : Sensing F) (w : W)
      → IsBalanced s
      → IsBalanced (detect_day floats board iso gains s w).0
  unfolding detect_day
  detect_day-IsBalanced iso gains s w b = elim (Bool-cases (may_be_day floats board iso gains s)) [
    | inl light ↦
        elim (Bool-cases
          (ltb s.config.day_count_threshold (next_day_count floats board iso gains s))) [
            | inl long ↦ rw (light, long) (switch_to_day-IsBalanced _ w b)
            | inr short ↦ rw (light, short) b
          ]
    | inr dark ↦ rw dark b
  ]

  sense-IsBalanced :
      (iso : F) (gains : Gains F) (s : Sensing F) (w : W)
      → IsBalanced s
      → IsBalanced (sense floats board iso gains s w).0
  unfolding sense
  sense-IsBalanced iso gains s w b =
      detect_day-IsBalanced iso _ _ _ (detect_night-IsBalanced iso gains _ w b)

  -- However many rounds the thread runs, and whatever the image processor answers, the counters of
  -- the switches stay balanced if they were: the mode is the day or the night, the number of all
  -- switches is that of the ones to night and of the ones to day together, modulo 2^32, and there is
  -- one switch to night more than to day by night, and as many by day, modulo 2^32.
  pub control_thread-IsBalanced :
      (rounds : ℕ) (s : Sensing F) (w : W)
      → IsBalanced s
      → IsBalanced (control_thread floats board rounds s w).0
  control_thread-IsBalanced = control_thread-keeps floats board IsBalanced sense-IsBalanced
