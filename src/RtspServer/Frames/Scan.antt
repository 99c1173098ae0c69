-- ===== src/RtspServer/Frames/Scan.antt =====
-- The search for start codes of src/modules/rtsp/rtsp_server.c: how many rounds it takes.
use strero.Prelude.{
  ℕ, zero, suc, ◌-◌, ◌≤◌, ◌<◌, ◌≡◌, refl, ap, ◌||◌, Bool-cases, inl, inr, [], ◌∷◌, leb, ◌==◌,
  if◌then◌else◌, length, length-drop, drop, Bytes, arith,
}
use strero.RtspServer.Frames.{scan_width, scan_starts}

scan_width_end : (tail : ℕ) → scan_width tail [] ≡ 0
unfolding scan_width
scan_width_end tail = ground arith

-- As many rounds as there are bytes are enough: one more changes nothing.
scan_starts_enough :
    (tail limit fuel : ℕ) (at : Bytes)
    → length at ≤ fuel
    → scan_starts tail limit (suc fuel) at ≡ scan_starts tail limit fuel at
unfolding scan_starts
scan_starts_enough tail limit zero [] h = rw (scan_width_end tail) (ground arith)
scan_starts_enough tail limit zero (x ∷ at) h = elim h [ ]
scan_starts_enough tail limit (suc fuel) at h =
    let width : ℕ = scan_width tail at in
    elim (Bool-cases (limit == 0 || width == 0)) [
      | inl stop ↦ rw stop refl
      | inr go ↦
          let moves : 0 < width = ground arith in
          let later =
            scan_starts_enough tail (if leb 3 width then limit - 1 else limit) fuel (drop width at)
              (omega (arith, length-drop width at)) in
          rw go (ap (λ rest. if leb 3 width then (at, drop width at) ∷ rest else rest) later)
    ]
