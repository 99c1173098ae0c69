-- ===== src/Photosensing/Ircut.antt =====
-- The infrared filter of src/modules/photosensing/photosensing_module.c: `photosensing_set_ircut`
-- and its calls.
use strero.Prelude.{
  Bool, true, false, ◌||◌, ◌++◌, take, Bytes, codes, if◌then◌else◌, ℤ, pos, minus_one, is_zero,
  is_negative,
}
use strero.RtspServer.Text.{show_int}
use strero.Photosensing.{Floats, Board, Config, Sensing}

-- The file of a pin in the directory of the GPIO pins.
unfoldable pub gpio_path : ℤ → Bytes → Bytes
gpio_path gpio file = codes "/sys/class/gpio/gpio" ++ (show_int gpio ++ file)

module _ {F W : Type 0} (floats : Floats F) (board : Board F W) where
  -- Opens a file of both pins, and closes them behind what is written. False is an error.
  unfoldable pub with_pins : Bytes → Config F → (ℤ → ℤ → W → W) → W → Bool × W
  with_pins file c body w =
      let (fd1, w1) = board.open_rdwr (gpio_path c.ircut_gpio1 file) w in
      let (fd2, w2) = board.open_rdwr (gpio_path c.ircut_gpio2 file) w1 in
      if is_negative fd1
      then (false, w1)
      else if is_negative fd2
      then (false, board.close fd1 w2)
      else (true, board.close fd2 (board.close fd1 (body fd1 fd2 w2)))

  unfoldable pub write_both : Bytes → ℤ → ℤ → W → W
  write_both text fd1 fd2 w = board.write fd2 text (board.write fd1 text w)

  -- The buffers `on` and `off` hold three characters.
  unfoldable pub write_values : ℤ → ℤ → ℤ → W → W
  write_values enable fd1 fd2 w =
      let off = codes (if is_zero enable then "1" else "0") in
      let w1 = board.usleep 10000 (board.write fd1 (codes "0") w) in
      let w2 = board.write fd2 off (board.write fd1 (show_int enable) w1) in
      if is_zero enable then board.write fd1 off (board.usleep 10000 w2) else w2

  -- The names of the pins are cut to the 7 characters of their buffers.
  unfoldable pub export_pins : Config F → W → Bool × W
  export_pins c w =
      let (fd, w1) = board.open_wronly (codes "/sys/class/gpio/export") w in
      let w2 = board.write fd (take 7 (show_int c.ircut_gpio1)) w1 in
      if is_negative fd
      then (false, w1)
      else (true, board.close fd (board.write fd (take 7 (show_int c.ircut_gpio2)) w2))

  -- A step that comes only where the one before had no error.
  unfoldable pub and_then : Bool × W → (W → Bool × W) → Bool × W
  and_then r next = if r.0 then next r.1 else (false, r.1)

  unfoldable pub drive_pins : Config F → ℤ → W → Bool × W
  drive_pins c enable w =
      and_then
        (and_then
          (and_then (export_pins c w) (with_pins (codes "/direction") c (write_both (codes "out"))))
          (with_pins (codes "/active_low") c (write_both (codes "0"))))
        (with_pins (codes "/value") c (write_values enable))

  unfoldable pub photosensing_set_ircut : Config F → ℤ → W → ℤ × W
  photosensing_set_ircut c enable w =
      let (script, w1) = board.has_script w in
      let (driven, w2) = drive_pins c enable w1 in
      if is_negative c.ircut_gpio1 || is_negative c.ircut_gpio2
      then (minus_one, w)
      else if script
      then (
        pos 0,
        board.system (codes (if is_zero enable then "/tmp/setir 1 0" else "/tmp/setir 0 1")) w1,
      )
      else (if driven then pos 0 else minus_one, w2)

  -- The infrared filter counts as switched where its state is 0, whatever the result.
  unfoldable pub move_ircut : ℤ → Sensing F → W → Sensing F × W
  move_ircut state s w =
      if s.config.ircut_enabled
      then (record s { ircut_status = is_zero state }, (photosensing_set_ircut s.config state w).1)
      else (s, w)
