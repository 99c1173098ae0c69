-- ===== src/FrameManager/Nal/FrameTypes.antt =====
-- What `detect_frame_type` of src/frame_manager.c decides, stated over positions in the frame.
use strero.Prelude.{
  ℕ, zero, suc, ◌+◌, ◌<◌, ◌≡◌, ◌↔◌, refl, Bool, true, false, ◌&&◌, Option, none, some, [], ◌∷◌, ltb,
  ◌==◌, if◌then◌else◌, length, drop, Bytes, arith, length-drop,
}
use strero.FrameManager.{FrameType, h264_idr, h264_p}
use strero.FrameManager.Nal.{
  is_start4, first_byte, nal_type_of, scan_frame_type, detect_frame_type, is_keyframe,
}

-- The type of the NAL unit behind a four-byte start code at a position, if a byte follows it.
abbrev pub nal_at : Bytes → Option ℕ
nal_at at =
    if ltb 4 (length at) && is_start4 at then some (nal_type_of (first_byte (drop 4 at))) else none

abbrev pub is_slice : Option ℕ → Bool
is_slice none = false
is_slice (some t) = if t == 5 then true else t == 1

-- Position `n` is the first one with a NAL unit of type 1 or 5.
pub record FirstSlice (frame : Bytes) (n : ℕ) : Type 0 where
  pub here : is_slice (nal_at (drop n frame)) ≡ true
  pub before : (m : ℕ) → m < n → is_slice (nal_at (drop m frame)) ≡ false

-- The frame type that the slice at a position stands for.
abbrev pub slice_type : Option ℕ → FrameType
slice_type none = h264_p
slice_type (some t) = if t == 5 then h264_idr else h264_p

length-FirstSlice : (frame : Bytes) (n : ℕ) → FirstSlice frame n → 4 + n < length frame
length-FirstSlice frame n h = omega (arith, length-drop n frame, slice_length (drop n frame) h.here)
  where
    slice_length : (at : Bytes) → is_slice (nal_at at) ≡ true → 4 < length at
    slice_length at e = ground arith

scan_frame_type-FirstSlice :
    (frame : Bytes) (n : ℕ)
    → FirstSlice frame n
    → scan_frame_type frame ≡ slice_type (nal_at (drop n frame))
unfolding scan_frame_type
scan_frame_type-FirstSlice [] zero h = refl
scan_frame_type-FirstSlice [] (suc n) h = refl
scan_frame_type-FirstSlice (x ∷ xs) zero h = ground (arith, h.here)
scan_frame_type-FirstSlice (x ∷ xs) (suc n) h = ground (
  arith,
  length-FirstSlice (x ∷ xs) (suc n) h,
  h.before 0 (omega arith),
  scan_frame_type-FirstSlice xs n
      (record { here = h.here; before = λ m lt. h.before (suc m) (omega arith) }),
)

scan_frame_type_none :
    (frame : Bytes)
    → ((n : ℕ) → is_slice (nal_at (drop n frame)) ≡ false)
    → scan_frame_type frame ≡ h264_p
unfolding scan_frame_type
scan_frame_type_none [] h = refl
scan_frame_type_none (x ∷ xs) h = ground (arith, h 0, scan_frame_type_none xs (λ n. h (suc n)))

-- The first NAL unit of type 1 or 5 behind a four-byte start code decides: the frame is an IDR
-- frame, and so a keyframe, exactly if that unit has type 5.
pub detect_frame_type-FirstSlice :
    (frame : Bytes) (n : ℕ)
    → FirstSlice frame n
    → (detect_frame_type frame ≡ slice_type (nal_at (drop n frame)))
      × (is_keyframe (detect_frame_type frame) ≡ true ↔ nal_at (drop n frame) ≡ some 5)
unfolding detect_frame_type is_keyframe
detect_frame_type-FirstSlice frame n h =
    ground (arith, length-FirstSlice frame n h, scan_frame_type-FirstSlice frame n h, h.here)

-- A frame without such a unit counts as a P frame.
pub detect_frame_type_none :
    (frame : Bytes)
    → ((n : ℕ) → is_slice (nal_at (drop n frame)) ≡ false)
    → detect_frame_type frame ≡ h264_p
unfolding detect_frame_type
detect_frame_type_none frame h = ground (arith, scan_frame_type_none frame h)
