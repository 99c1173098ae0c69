-- ===== src/Photosensing/Examples.antt =====
-- The day and night switch of src/modules/photosensing/photosensing_module.c at concrete inputs: an
-- evening, with numbers for the floats and the time for the world.
use strero.Prelude.{ℕ, ◌+◌, ◌≡◌, refl, Bool, true, false, some, ltb, ℤ, pos, arith, if◌then◌else◌}
use strero.Photosensing.{
  Floats, Board, Config, day_running, night_running, Mode, day, night, Sensing, is_day, is_night,
}
use strero.Photosensing.Lifecycle.{
  setup_photosensing_defaults, cleared_stats, photosensing_module_init,
}
use strero.Photosensing.Control.{control_thread}
use strero.Photosensing.Control.Counting.{Balanced, IsBalanced, control_thread-IsBalanced}
use strero.Photosensing.Control.Stuck.{control_thread-IsStuck}

abbrev counts : Floats ℕ
counts = record { zero_float = 0; less = ltb; add = ◌+◌; of_count = λ n. n; through_int = λ n. n }

-- Dark up to the tenth round, bright from there on.
abbrev evening : Board ℕ ℕ
evening = record {
  get_ev = λ w. (some (if ltb w 10 then 2000000 else 1000), w + 1);
  get_gains = λ w. (some (record { gb = 300; gr = 300 }), w);
  sample_gains = λ w. (record { gb = 100; gr = 100 }, w);
  get_running_mode = λ w. (if ltb w 10 then day_running else night_running, w);
  set_running_mode = λ m w. (pos 0, w);
  has_script = λ w. (true, w);
  system = λ command w. w;
  open_wronly = λ path w. (pos 3, w);
  open_rdwr = λ path w. (pos 3, w);
  write = λ fd text w. w;
  close = λ fd w. w;
  usleep = λ n w. w;
  mutex_init = λ w. (pos 0, w);
  mutex_destroy = λ w. w;
  create_thread = λ w. (pos 0, w);
  join_thread = λ w. (pos 0, w);
}

abbrev config_with : ℤ → Config ℕ
config_with night_state = record {
  enabled = true;
  night_iso_threshold = 1900000;
  night_count_threshold = 5;
  day_iso_threshold = 479832;
  day_gb_gain_offset = 15;
  day_gb_gain_threshold = 145;
  day_iso_secondary_threshold = 361880;
  day_count_threshold = 3;
  ircut_enabled = true;
  ircut_day_state = pos 1;
  ircut_night_state = night_state;
  ircut_gpio1 = pos 79;
  ircut_gpio2 = pos 80;
  gb_gain_record_init = 200;
  gr_gain_record_init = 200;
}

abbrev state_with : ℤ → Mode → Bool → Sensing ℕ
state_with night_state mode status = record {
  config = config_with night_state;
  initialized = false;
  running = false;
  thread_should_exit = false;
  current_mode = mode;
  ircut_status = status;
  day_count = 0;
  night_count = 0;
  gb_gain_record = 0;
  gr_gain_record = 0;
  stats = cleared_stats counts evening;
}

abbrev initialized : Sensing ℕ
initialized =
    (photosensing_module_init counts evening (some (config_with (pos 0)))
      (state_with (pos 0) day false) 0).1.0

initialized-IsBalanced : IsBalanced initialized
unfolding Balanced photosensing_module_init setup_photosensing_defaults cleared_stats is_day
    is_night
initialized-IsBalanced = (refl, refl, refl, omega arith)

-- An evening and the day after it, as the module starts.
control_thread-IsBalanced_example : IsBalanced (control_thread counts evening 20 initialized 0).0
control_thread-IsBalanced_example =
    control_thread-IsBalanced counts evening 20 initialized 0 initialized-IsBalanced

is_night_night : is_night night ≡ true
unfolding is_night
is_night_night = refl

-- A filter with the state 1 for the night.
control_thread-IsStuck_example :
    is_night (control_thread counts evening 20 (state_with (pos 1) night false) 0).0.current_mode
    ≡ true
control_thread-IsStuck_example =
    control_thread-IsStuck counts evening 20 (state_with (pos 1) night false) 0 is_night_night refl
      refl refl
