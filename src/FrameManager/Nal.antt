-- ===== src/FrameManager/Nal.antt =====
-- The NAL unit scanners of src/frame_manager.c: `detect_frame_type` and `extract_stream_params`.
--
-- A position in a frame is the list of the bytes from there to its end. `detect_frame_type` returns
-- early for a frame of fewer than 5 bytes, so that `offset < size - 4` is `4 < length` there.
pub mod FrameTypes
pub mod InBounds
pub mod Extraction
pub mod AnnexB
mod Examples
use mathlib.Core.Option
use strero.Prelude.{
  ℕ, zero, suc, ◌+◌, ◌-◌, ◌%◌, Bool, true, false, ◌&&◌, ◌||◌, Option, none, some, List, [], ◌∷◌,
  leb, ltb, ◌==◌, if◌then◌else◌, length, take, drop, Bytes,
}
use strero.FrameManager.{FrameType, h264_idr, h264_p, h265_idr, StreamParams, is_some}

-- 00 00 00 01 at a position
abbrev pub is_start4 : Bytes → Bool
is_start4 (a ∷ b ∷ c ∷ d ∷ _) = a == 0 && b == 0 && c == 0 && d == 1
is_start4 _ = false

-- 00 00 01 at a position
abbrev pub is_start3 : Bytes → Bool
is_start3 (a ∷ b ∷ c ∷ _) = a == 0 && b == 0 && c == 1
is_start3 _ = false

abbrev pub first_byte : Bytes → ℕ
first_byte [] = 0
first_byte (x ∷ _) = x

-- byte & 0x1F
abbrev pub nal_type_of : ℕ → ℕ
nal_type_of byte = byte % 32

-- The loop of `detect_frame_type` from a position on.
unfoldable pub scan_frame_type : Bytes → FrameType
scan_frame_type [] = h264_p
scan_frame_type (x ∷ xs) =
    let next = scan_frame_type xs in
    let nal_type = nal_type_of (first_byte (drop 4 (x ∷ xs))) in
    if ltb 4 (length (x ∷ xs))
    then if is_start4 (x ∷ xs)
      then if nal_type == 5 then h264_idr else if nal_type == 1 then h264_p else next
      else next
    else h264_p

unfoldable pub detect_frame_type : Bytes → FrameType
detect_frame_type frame = if ltb (length frame) 5 then h264_p else scan_frame_type frame

unfoldable pub is_keyframe : FrameType → Bool
is_keyframe h264_idr = true
is_keyframe h265_idr = true
is_keyframe _ = false

-- `offset < size - k` in `size_t`, at the position `at` of a frame of this size: below k the
-- difference wraps, and every position is before it.
unfoldable pub before_end : ℕ → ℕ → Bytes → Bool
before_end size k at = if leb k size then ltb k (length at) else true

-- Compares the bytes from a position on with a pattern, up to the first one that differs, as && does;
-- `none` is a read behind the end of the frame.
unfoldable pub read_pattern : Bytes → Bytes → Option Bool
read_pattern [] at = some true
read_pattern (v ∷ pattern) [] = none
read_pattern (v ∷ pattern) (x ∷ at) =
    let rest = read_pattern pattern at in if x == v then rest else some false

abbrev pub four : Bytes
four = 0 ∷ 0 ∷ 0 ∷ 1 ∷ []

abbrev pub three : Bytes
three = 0 ∷ 0 ∷ 1 ∷ []

-- `||` of two reads: the second one only if the first one is false.
unfoldable pub or_else : Option Bool → Option Bool → Option Bool
or_else none later = none
or_else (some true) later = some true
or_else (some false) later = later

-- The inner loop over `j`: how many bytes there are before the next start code, or before the end
-- of the frame.
unfoldable pub read_until_start_code : ℕ → Bytes → Option ℕ
read_until_start_code size [] = if before_end size 3 [] then none else some 0
read_until_start_code size (x ∷ xs) =
    let more = read_until_start_code size xs in
    if before_end size 3 (x ∷ xs)
    then elim (or_else (read_pattern four (x ∷ xs)) (read_pattern three (x ∷ xs))) [
      | none ↦ none
      | some found ↦ if found then some 0 else Option.map suc more
    ]
    else Option.map suc more

-- `nal_start - offset` at a start code, and 0 elsewhere.
unfoldable pub read_start_code : ℕ → Bytes → Option ℕ
read_start_code size at = elim (read_pattern four at) [
  | none ↦ none
  | some found4 ↦
      if found4
      then some 4
      else if before_end size 3 at
      then Option.map (λ found3. if found3 then 3 else 0) (read_pattern three at)
      else some 0
]

-- How `extract_stream_params` ends.
pub data Extracted : Type 0 where
  extracted : StreamParams → Extracted
  read_out_of_bounds out_of_fuel : Extracted

-- `malloc(size)` succeeds: an argument, the answer for each size.
module _ (malloc_ok : ℕ → Bool) where
  -- `params->sps_data = malloc(nal_size)`, filled if it is not NULL
  abbrev copy_nal : Bytes → Option Bytes
  copy_nal nal = if malloc_ok (length nal) then some nal else none

  -- A parameter set of type 7 or 8; the first of each kind is kept.
  pub keep_nal : ℕ → Bytes → StreamParams → StreamParams
  keep_nal nal_type nal params =
      let sps =
        (if nal_type == 7
          then (elim params.sps [ none ↦ copy_nal nal | some d ↦ some d ])
          else params.sps) in
      let pps =
        (if nal_type == 8
          then (elim params.pps [ none ↦ copy_nal nal | some d ↦ some d ])
          else params.pps) in
      record { sps = sps; pps = pps; available = params.available || (is_some sps && is_some pps) }

  -- A round behind the test for a start code.
  unfoldable pub read_nal : ℕ → Bytes → StreamParams → ℕ → Option (StreamParams × Bytes)
  read_nal size at params code =
      let nal_on = drop code at in
      let nal_type = nal_type_of (first_byte nal_on) in
      if ltb 0 code && (ltb 0 (length nal_on) && (nal_type == 7 || nal_type == 8))
      then Option.map (λ n. (keep_nal nal_type (take (suc n) nal_on) params, drop (suc n) nal_on))
          (read_until_start_code size (drop 1 nal_on))
      else some (params, drop 1 at)

  -- One round of the loop over `offset`: the new parameters, and the position of the next round.
  unfoldable pub read_step : ℕ → Bytes → StreamParams → Option (StreamParams × Bytes)
  read_step size at params = Option.bind (read_start_code size at) (read_nal size at params)

  -- The loop over `offset` in a frame of this size.
  unfoldable pub read_params : ℕ → ℕ → Bytes → StreamParams → Extracted
  read_params size zero at params = out_of_fuel
  read_params size (suc fuel) at params = elim (before_end size 4 at) [
    | false ↦ extracted params
    | true ↦ elim (read_step size at params) [
      | none ↦ read_out_of_bounds
      | some r ↦ read_params size fuel r.1 r.0
    ]
  ]

  unfoldable pub extract_params : Bytes → StreamParams → Extracted
  extract_params frame params =
      if params.available
      then extracted params
      else read_params (length frame) (suc (length frame)) frame params
