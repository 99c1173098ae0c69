-- ===== src/Photosensing/Control.antt =====
-- The thread `photosensing_control_thread` of src/modules/photosensing/photosensing_module.c: its
-- rounds, without the sleep between two of them and without the debug message.
pub mod Rounds
pub mod Counting
pub mod Stuck
use strero.Prelude.{
  ℕ, zero, suc, ◌+◌, ◌-◌, ◌%◌, Bool, true, false, not, ◌&&◌, ◌||◌, Option, none, some, ltb, ◌==◌,
  if◌then◌else◌, ℤ, pos, minus_one, is_zero, is_negative,
}
use strero.Photosensing.{
  Floats, Gains, Board, RunningMode, day_running, night_running, Mode, day, night, unknown, Sensing,
  is_night_running, is_day, is_night,
}
use strero.Photosensing.Ircut.{move_ircut}

-- A counter of type unsigned long.
unfoldable pub count_switch : ℕ → ℕ
count_switch n = (n + 1) % 4294967296

module _ {F W : Type 0} (floats : Floats F) (board : Board F W) where
  -- The switch to night of the statistics and of the mode.
  unfoldable pub count_night : Sensing F → Sensing F
  count_night s =
      if is_day s.current_mode
      then record s {
        current_mode = night;
        stats = record s.stats {
          current_mode = night;
          day_to_night_switches = count_switch s.stats.day_to_night_switches;
          mode_switches = count_switch s.stats.mode_switches;
        };
      }
      else record s { current_mode = night; stats = record s.stats { current_mode = night } }

  unfoldable pub count_day : Sensing F → Sensing F
  count_day s =
      if is_night s.current_mode
      then record s {
        current_mode = day;
        stats = record s.stats {
          current_mode = day;
          night_to_day_switches = count_switch s.stats.night_to_day_switches;
          mode_switches = count_switch s.stats.mode_switches;
        };
      }
      else record s { current_mode = day; stats = record s.stats { current_mode = day } }

  unfoldable pub switch_to_night : Sensing F → W → Sensing F × W
  switch_to_night s w =
      let (mode, w1) = board.get_running_mode w in
      let (s2, w2) =
        move_ircut floats board s.config.ircut_night_state s
          (board.set_running_mode night_running w1).1 in
      if is_night_running mode then (s, w1) else (count_night s2, w2)

  unfoldable pub switch_to_day : Sensing F → W → Sensing F × W
  switch_to_day s w =
      let (mode, w1) = board.get_running_mode w in
      let (s2, w2) =
        move_ircut floats board s.config.ircut_day_state s
          (board.set_running_mode day_running w1).1 in
      if is_night_running mode then (count_day s2, w2) else (s, w1)

  unfoldable pub smaller : F → F → F
  smaller buffer gain = if floats.less gain buffer then gain else buffer

  -- The samples after the first one: the last gains, and the least ones.
  unfoldable pub sample_more : ℕ → Gains F → Gains F → W → (Gains F × Gains F) × W
  sample_more zero gains least w = ((gains, least), w)
  sample_more (suc n) gains least w =
      let (next, w1) = board.sample_gains w in
      sample_more n next (record { gb = smaller least.gb next.gb; gr = smaller least.gr next.gr })
        w1

  -- 20 samples: the gains of the last one go on, and the least ones are kept.
  unfoldable pub take_samples : Sensing F → W → (Sensing F × Gains F) × W
  take_samples s w =
      let (first, w1) = board.sample_gains w in
      let (r, w2) = sample_more 19 first first w1 in
      ((record s { gb_gain_record = r.1.gb; gr_gain_record = r.1.gr }, r.0), w2)

  unfoldable pub detect_night : F → Gains F → Sensing F → W → (Sensing F × Gains F) × W
  detect_night iso gains s w =
      let counted : Sensing F = record s { night_count = s.night_count + 1 } in
      let (s1, w1) = switch_to_night counted w in
      if not (floats.less s.config.night_iso_threshold iso)
      then ((record s { night_count = 0 }, gains), w)
      else if ltb s.config.night_count_threshold counted.night_count
      then take_samples s1 w1
      else ((counted, gains), w)

  -- Whether the three conditions of the day hold.
  unfoldable pub may_be_day : F → Gains F → Sensing F → Bool
  may_be_day iso gains s =
      floats.less (floats.through_int iso) s.config.day_iso_threshold
      && (s.ircut_status
          && floats.less (floats.add s.gb_gain_record s.config.day_gb_gain_offset) gains.gb)

  unfoldable pub next_day_count : F → Gains F → Sensing F → ℕ
  next_day_count iso gains s =
      if floats.less iso s.config.day_iso_secondary_threshold
        || floats.less s.config.day_gb_gain_threshold gains.gb
      then s.day_count + 1
      else 0

  unfoldable pub detect_day : F → Gains F → Sensing F → W → Sensing F × W
  detect_day iso gains s w =
      let counted : Sensing F = record s { day_count = next_day_count iso gains s } in
      if not (may_be_day iso gains s)
      then (record s { day_count = 0 }, w)
      else if ltb s.config.day_count_threshold counted.day_count
      then switch_to_day counted w
      else (counted, w)

  -- A round with this exposure and these gains.
  unfoldable pub sense : F → Gains F → Sensing F → W → Sensing F × W
  sense iso gains s w =
      let noted : Sensing F = record s {
        stats = record s.stats {
          last_iso_value = iso;
          last_gb_gain = gains.gb;
          last_gr_gain = gains.gr;
          day_count = s.day_count;
          night_count = s.night_count;
        };
      } in
      let (r, w1) = detect_night iso gains noted w in detect_day iso r.1 r.0 w1

  -- `none` ends the thread: an error of the image processor.
  unfoldable pub with_gains : ℕ → Sensing F → Option (Gains F) × W → Option (Sensing F × W)
  with_gains ev s (none, w) = none
  with_gains ev s (some gains, w) = some (sense (floats.of_count ev) gains s w)

  unfoldable pub with_ev : Sensing F → Option ℕ × W → Option (Sensing F × W)
  with_ev s (none, w) = none
  with_ev s (some ev, w) = with_gains ev s (board.get_gains w)

  unfoldable pub control_round : Sensing F → W → Option (Sensing F × W)
  control_round s w = with_ev s (board.get_ev w)

  -- The thread, over this many rounds at most.
  unfoldable pub control_thread : ℕ → Sensing F → W → Sensing F × W
  control_thread zero s w = (s, w)
  control_thread (suc rounds) s w = elim (control_round s w) [
    | none ↦ (s, w)
    | some r ↦ control_thread rounds r.0 r.1
  ]
