-- ===== src/FrameManager/Nal/InBounds.antt =====
-- The reads of `extract_stream_params` of src/frame_manager.c: its loop without the tests for reads
-- out of bounds, and where the two agree.
use mathlib.Core.Option
use strero.Prelude.{
  ℕ, zero, suc, ◌≤◌, ◌<◌, ◌≡◌, ◌⊎◌, refl, Bool, ◌&&◌, ◌||◌, Bool-cases, inl, inr, Option, none,
  some, [], ◌∷◌, ltb, ltb→lt, ◌==◌, if◌then◌else◌, length, take, drop, Bytes, arith,
}
use strero.FrameManager.{StreamParams}
use strero.FrameManager.Nal.{
  is_start4, is_start3, first_byte, nal_type_of, before_end, read_pattern, four, three, or_else,
  read_until_start_code, read_start_code, Extracted, extracted, read_out_of_bounds, out_of_fuel,
  keep_nal, read_nal, read_step, read_params, extract_params,
}

-- The inner loop over `j`: how many bytes there are before the next start code, or before the end
-- of the frame if fewer than four bytes are left.
unfoldable pub until_start_code : Bytes → ℕ
until_start_code [] = 0
until_start_code (x ∷ xs) =
    let more = until_start_code xs in
    if ltb 3 (length (x ∷ xs)) && (is_start4 (x ∷ xs) || is_start3 (x ∷ xs)) then 0 else suc more

-- `nal_start - offset` at a start code, and 0 elsewhere.
unfoldable pub start_code_length : Bytes → ℕ
start_code_length at = if is_start4 at then 4 else if is_start3 at then 3 else 0

module _ (malloc_ok : ℕ → Bool) where
  -- One round of the loop over `offset`: the new parameters, and the position of the next round.
  unfoldable pub scan_step : Bytes → StreamParams → StreamParams × Bytes
  scan_step at params =
      let code = start_code_length at in
      let nal_on = drop code at in
      let nal_type = nal_type_of (first_byte nal_on) in
      let nal_size = suc (until_start_code (drop 1 nal_on)) in
      if ltb 0 code && (nal_type == 7 || nal_type == 8)
      then (keep_nal malloc_ok nal_type (take nal_size nal_on) params, drop nal_size nal_on)
      else (params, drop 1 at)

  -- The loop over `offset`; `none` means that the fuel ran out.
  unfoldable pub scan_params : ℕ → Bytes → StreamParams → Option StreamParams
  scan_params zero at params = none
  scan_params (suc fuel) at params =
      let (params', next) = scan_step at params in
      let rest = scan_params fuel next params' in if ltb 4 (length at) then rest else some params

  -- The result of the loop.
  abbrev pub loop_result : Option StreamParams → Extracted
  loop_result none = out_of_fuel
  loop_result (some params) = extracted params

-- The reads within a frame.
four_within : (at : Bytes) → 4 ≤ length at → read_pattern four at ≡ some (is_start4 at)
unfolding read_pattern
four_within [] h = ground arith
four_within (a ∷ []) h = ground arith
four_within (a ∷ b ∷ []) h = ground arith
four_within (a ∷ b ∷ c ∷ []) h = ground arith
four_within (a ∷ b ∷ c ∷ d ∷ at) h = ground arith

three_within : (at : Bytes) → 3 ≤ length at → read_pattern three at ≡ some (is_start3 at)
unfolding read_pattern
three_within [] h = ground arith
three_within (a ∷ []) h = ground arith
three_within (a ∷ b ∷ []) h = ground arith
three_within (a ∷ b ∷ c ∷ at) h = ground arith

until_within :
    (size : ℕ) (at : Bytes) → 4 ≤ size → read_until_start_code size at ≡ some (until_start_code at)
unfolding read_until_start_code until_start_code before_end or_else Option.map
until_within size [] h = ground arith
until_within size (x ∷ xs) h = elim (Bool-cases (ltb 3 (length (x ∷ xs)))) [
  | inl more ↦ ground (
    arith,
    until_within size xs h,
    four_within (x ∷ xs) (ltb→lt 3 _ more),
    three_within (x ∷ xs) (omega (arith, ltb→lt 3 _ more)),
  )
  | inr end ↦ ground (arith, until_within size xs h)
]

start_code_within :
    (size : ℕ) (at : Bytes)
    → 4 ≤ size
    → 4 < length at
    → read_start_code size at ≡ some (start_code_length at)
unfolding read_start_code start_code_length before_end Option.map
start_code_within size at h long =
    ground (arith, four_within at (omega arith), three_within at (omega arith))

-- The first byte differs from a start code, or the frame ends within it.
no_start_code :
    (size : ℕ) (at : Bytes)
    → size < 4
    → length at ≤ size
    → (read_start_code size at ≡ none) ⊎ ((read_start_code size at ≡ some 0) × (0 < length at))
unfolding read_start_code read_pattern before_end Option.map
no_start_code size [] h fits = inl refl
no_start_code size (a ∷ []) h fits = ground arith
no_start_code size (a ∷ b ∷ []) h fits = ground arith
no_start_code size (a ∷ b ∷ c ∷ []) h fits = ground arith
no_start_code size (a ∷ b ∷ c ∷ d ∷ at) h fits = ground arith

module _ (malloc_ok : ℕ → Bool) where
  read_step_within :
      (size : ℕ) (at : Bytes) (params : StreamParams)
      → 4 ≤ size
      → 4 < length at
      → read_step malloc_ok size at params ≡ some (scan_step malloc_ok at params)
  unfolding read_step read_nal scan_step Option.bind Option.map
  read_step_within size at params h long = ground (
    arith,
    start_code_within size at h long,
    until_within size (drop 1 (drop (start_code_length at) at)) h,
  )

  read_params_within :
      (size fuel : ℕ) (at : Bytes) (params : StreamParams)
      → 4 ≤ size
      → read_params malloc_ok size fuel at params
        ≡ loop_result malloc_ok (scan_params malloc_ok fuel at params)
  unfolding read_params scan_params before_end
  read_params_within size zero at params h = refl
  read_params_within size (suc fuel) at params h = elim (Bool-cases (ltb 4 (length at))) [
    | inl more ↦ ground (
      arith,
      read_step_within size at params h (ltb→lt 4 _ more),
      read_params_within size fuel (scan_step malloc_ok at params).1
          (scan_step malloc_ok at params).0 h,
    )
    | inr end ↦ ground arith
  ]

  -- The wrapped bound: the loop goes on until it reads behind the end.
  read_params_short :
      (size fuel : ℕ) (at : Bytes) (params : StreamParams)
      → size < 4
      → length at ≤ size
      → length at < fuel
      → read_params malloc_ok size fuel at params ≡ read_out_of_bounds
  unfolding read_params before_end read_step read_nal read_start_code read_pattern Option.bind
      Option.map
  read_params_short size zero at params h fits enough = elim enough [ ]
  read_params_short size (suc fuel) [] params h fits enough = ground arith
  read_params_short size (suc fuel) (x ∷ at) params h fits enough =
      elim (no_start_code size (x ∷ at) h fits) [
        | inl fault ↦ ground (arith, fault)
        | inr (plain, _) ↦
            ground
              (arith, plain, read_params_short size fuel at params h (omega arith) (omega arith))
      ]

  -- `extract_stream_params` reads behind the end of a frame of fewer than 4 bytes, and is the loop
  -- without tests for the others.
  pub extract_params-loop :
      (frame : Bytes) (params : StreamParams)
      → extract_params malloc_ok frame params ≡ (
          if params.available
          then extracted params
          else if ltb (length frame) 4
          then read_out_of_bounds
          else loop_result malloc_ok (scan_params malloc_ok (suc (length frame)) frame params))
  unfolding extract_params
  extract_params-loop frame params = elim (Bool-cases (ltb (length frame) 4)) [
    | inl short ↦ ground (
      arith,
      read_params_short (length frame) (suc (length frame)) frame params (ltb→lt _ _ short)
          (omega arith) (omega arith),
    )
    | inr long ↦
        ground (
          arith,
          read_params_within (length frame) (suc (length frame)) frame params (ground arith),
        )
  ]
