-- ===== src/Photosensing/Lifecycle.antt =====
-- The life cycle of src/modules/photosensing/photosensing_module.c: init, start and stop.
use strero.Prelude.{
  true, false, not, ◌||◌, Option, none, some, if◌then◌else◌, ℤ, pos, minus_one, is_zero,
  is_negative,
}
use strero.Photosensing.{Floats, Board, Config, Sensing, Statistics, day, day_running}
use strero.Photosensing.Ircut.{move_ircut}

module _ {F W : Type 0} (floats : Floats F) (board : Board F W) where
  unfoldable pub setup_photosensing_defaults : Sensing F → Sensing F
  setup_photosensing_defaults s = record s {
    current_mode = day;
    ircut_status = true;
    day_count = 0;
    night_count = 0;
    gb_gain_record = s.config.gb_gain_record_init;
    gr_gain_record = s.config.gr_gain_record_init;
    thread_should_exit = false;
  }

  -- Statistics of zeroes, with the mode `day`, which is 0 too.
  unfoldable pub cleared_stats : Statistics F
  cleared_stats = record {
    mode_switches = 0;
    day_to_night_switches = 0;
    night_to_day_switches = 0;
    current_mode = day;
    last_iso_value = floats.zero_float;
    last_gb_gain = floats.zero_float;
    last_gr_gain = floats.zero_float;
    day_count = 0;
    night_count = 0;
  }

  -- A configuration that is not enabled leaves the mutex as it is.
  unfoldable pub photosensing_module_init : Option (Config F) → Sensing F → W → ℤ × (Sensing F × W)
  photosensing_module_init none s w = (minus_one, (s, w))
  photosensing_module_init (some config) s w =
      let configured : Sensing F = record s { config = config } in
      let (made, w1) = board.mutex_init w in
      if s.initialized
      then (pos 0, (s, w))
      else if config.enabled
      then if is_zero made
        then (
          pos 0,
          (
            record (setup_photosensing_defaults configured) {
              stats = cleared_stats;
              initialized = true;
            },
            w1,
          ),
        )
        else (minus_one, (configured, w1))
      else (pos 0, (record configured { initialized = true }, w))

  unfoldable pub start_thread : Sensing F → W → ℤ × (Sensing F × W)
  start_thread s w =
      let waiting : Sensing F = record s { thread_should_exit = false } in
      let (created, w1) = board.create_thread w in
      if is_zero created
      then (pos 0, (record waiting { running = true }, w1))
      else (minus_one, (waiting, w1))

  unfoldable pub photosensing_module_start : Sensing F → W → ℤ × (Sensing F × W)
  photosensing_module_start s w =
      let (switched, w1) = board.set_running_mode day_running w in
      let (s2, w2) = move_ircut floats board s.config.ircut_day_state s w1 in
      if not s.initialized
      then (minus_one, (s, w))
      else if not s.config.enabled || s.running
      then (pos 0, (s, w))
      else if is_negative switched
      then (minus_one, (s, w1))
      else start_thread s2 w2

  unfoldable pub photosensing_module_stop : Sensing F → W → ℤ × (Sensing F × W)
  photosensing_module_stop s w =
      if s.running
      then (
        pos 0,
        (record s { thread_should_exit = true; running = false }, (board.join_thread w).1),
      )
      else (pos 0, (s, w))

  unfoldable pub cleared_config : Config F
  cleared_config = record {
    enabled = false;
    night_iso_threshold = floats.zero_float;
    night_count_threshold = 0;
    day_iso_threshold = floats.zero_float;
    day_gb_gain_offset = floats.zero_float;
    day_gb_gain_threshold = floats.zero_float;
    day_iso_secondary_threshold = floats.zero_float;
    day_count_threshold = 0;
    ircut_enabled = false;
    ircut_day_state = pos 0;
    ircut_night_state = pos 0;
    ircut_gpio1 = pos 0;
    ircut_gpio2 = pos 0;
    gb_gain_record_init = floats.zero_float;
    gr_gain_record_init = floats.zero_float;
  }

  -- What memset leaves of the state, and a static variable starts as.
  unfoldable pub zero_state : Sensing F
  zero_state = record {
    config = cleared_config;
    initialized = false;
    running = false;
    thread_should_exit = false;
    current_mode = day;
    ircut_status = false;
    day_count = 0;
    night_count = 0;
    gb_gain_record = floats.zero_float;
    gr_gain_record = floats.zero_float;
    stats = cleared_stats;
  }

  unfoldable pub photosensing_module_cleanup : Sensing F → W → ℤ × (Sensing F × W)
  photosensing_module_cleanup s w =
      let (_, (s1, w1)) = photosensing_module_stop s w in
      if s.initialized then (pos 0, (zero_state, board.mutex_destroy w1)) else (pos 0, (s, w))
