-- ===== src/Photosensing.antt =====
-- The day and night switch, src/modules/photosensing/photosensing_module.c and its header: the
-- data, and what is outside of the module.
--
-- A float is of a type with its operations, `Floats`. An int that is only counted up is a ℕ: the
-- two counters grow by one in a round, which takes a polling interval.
pub mod Ircut
pub mod Control
pub mod Lifecycle
mod Examples
use strero.Prelude.{ℕ, Bool, true, false, Option, Bytes, ℤ}

-- The float operations of the module, its zero, and the conversions from the counts of the ISP and through
-- an int.
pub record Floats (F : Type 0) : Type 0 where
  pub zero_float : F
  pub less : F → F → Bool
  pub add : F → F → F
  pub of_count : ℕ → F
  pub through_int : F → F

-- IMPISPRunningMode
pub data RunningMode : Type 0 where
  day_running : RunningMode
  night_running : RunningMode

-- photosensing_mode_t
pub data Mode : Type 0 where
  day : Mode
  night : Mode
  unknown : Mode

-- photosensing_module_config_t, less the polling interval and the debug logging. The
-- configuration is valid, so that the counts are positive.
pub record Config (F : Type 0) : Type 0 where
  pub enabled : Bool
  pub night_iso_threshold : F
  pub night_count_threshold : ℕ
  pub day_iso_threshold : F
  pub day_gb_gain_offset : F
  pub day_gb_gain_threshold : F
  pub day_iso_secondary_threshold : F
  pub day_count_threshold : ℕ
  pub ircut_enabled : Bool
  pub ircut_day_state : ℤ
  pub ircut_night_state : ℤ
  pub ircut_gpio1 : ℤ
  pub ircut_gpio2 : ℤ
  pub gb_gain_record_init : F
  pub gr_gain_record_init : F

-- photosensing_stats_t, less the uptime.
pub record Statistics (F : Type 0) : Type 0 where
  pub mode_switches : ℕ
  pub day_to_night_switches : ℕ
  pub night_to_day_switches : ℕ
  pub current_mode : Mode
  pub last_iso_value : F
  pub last_gb_gain : F
  pub last_gr_gain : F
  pub day_count : ℕ
  pub night_count : ℕ

-- photosensing_module_state_t, less its thread, its mutex and the start time.
pub record Sensing (F : Type 0) : Type 0 where
  pub config : Config F
  pub initialized : Bool
  pub running : Bool
  pub thread_should_exit : Bool
  pub current_mode : Mode
  pub ircut_status : Bool
  pub day_count : ℕ
  pub night_count : ℕ
  pub gb_gain_record : F
  pub gr_gain_record : F
  pub stats : Statistics F

-- The gains of green-blue and green-red.
pub record Gains (F : Type 0) : Type 0 where
  pub gb : F
  pub gr : F

-- What is outside of the module. The image processor: the exposure and the gains (`none` is an
-- error), the gains of a sample after a switch, the running mode. The files of the infrared
-- filter: the test for the script, a command of the shell, open for writing and for both (negative
-- for an error), write and close. Threads and mutexes, with 0 for success.
pub record Board (F : Type 0) (W : Type 0) : Type 0 where
  pub get_ev : W → Option ℕ × W
  pub get_gains : W → Option (Gains F) × W
  pub sample_gains : W → Gains F × W
  pub get_running_mode : W → RunningMode × W
  pub set_running_mode : RunningMode → W → ℤ × W
  pub has_script : W → Bool × W
  pub system : Bytes → W → W
  pub open_wronly : Bytes → W → ℤ × W
  pub open_rdwr : Bytes → W → ℤ × W
  pub write : ℤ → Bytes → W → W
  pub close : ℤ → W → W
  pub usleep : ℕ → W → W
  pub mutex_init : W → ℤ × W
  pub mutex_destroy : W → W
  pub create_thread : W → ℤ × W
  pub join_thread : W → ℤ × W

unfoldable pub is_night_running : RunningMode → Bool
is_night_running day_running = false
is_night_running night_running = true

unfoldable pub is_day : Mode → Bool
is_day day = true
is_day night = false
is_day unknown = false

unfoldable pub is_night : Mode → Bool
is_night day = false
is_night night = true
is_night unknown = false
