-- ===== src/FrameManager/Nal/Examples.antt =====
-- The NAL units of src/frame_manager.c in a frame of an SPS, a PPS and an IDR slice.
use strero.Prelude.{
  ℕ, zero, suc, ◌<◌, ◌≡◌, ◌≢◌, ◌↔◌, refl, true, false, some, [], ◌∷◌, ◌++◌, length, drop, Bytes,
  arith,
}
use strero.FrameManager.{h264_idr, StreamParams, empty_params}
use strero.FrameManager.Nal.{
  detect_frame_type, scan_frame_type, is_keyframe, extract_params, extracted, read_out_of_bounds,
  out_of_fuel,
}
use strero.FrameManager.Nal.FrameTypes.{
  FirstSlice, is_slice, nal_at, slice_type, detect_frame_type-FirstSlice,
}
use strero.FrameManager.Nal.Extraction.{extract_params_total}
use strero.FrameManager.Nal.AnnexB.{framed, extract_params-sps_pps}

-- SPS 103 66, PPS 104 206, and an IDR slice.
abbrev frame : Bytes
frame = framed (103 ∷ (66 ∷ []) ++ framed (104 ∷ (206 ∷ []) ++ framed (101 ∷ 136 ∷ [])))

abbrev full : StreamParams
full = record { sps = some (103 ∷ 66 ∷ []); pps = some (104 ∷ 206 ∷ []); available = true }

frame_type_test : detect_frame_type frame ≡ h264_idr
unfolding detect_frame_type scan_frame_type
frame_type_test = refl

extract_params-sps_pps_example : extract_params (λ _. true) frame empty_params ≡ extracted full
extract_params-sps_pps_example =
    extract_params-sps_pps (λ _. true) 103 (66 ∷ []) 104 (206 ∷ []) (101 ∷ 136 ∷ []) refl refl
      (refl, tt) (refl, tt) (λ _. refl)

-- A PPS, and an IDR slice at position 5.
abbrev short : Bytes
short = framed (104 ∷ framed (101 ∷ []))

before_5 : (m : ℕ) → m < 5 → is_slice (nal_at (drop m short)) ≡ false
before_5 zero h = refl
before_5 (suc zero) h = refl
before_5 (suc (suc zero)) h = refl
before_5 (suc (suc (suc zero))) h = refl
before_5 (suc (suc (suc (suc zero)))) h = refl
before_5 (suc (suc (suc (suc (suc m))))) h = ground arith

slice_first : FirstSlice short 5
slice_first = record { here = refl; before = before_5 }

detect_frame_type-FirstSlice_example :
    (detect_frame_type short ≡ slice_type (nal_at (drop 5 short)))
    × (is_keyframe (detect_frame_type short) ≡ true ↔ nal_at (drop 5 short) ≡ some 5)
detect_frame_type-FirstSlice_example = detect_frame_type-FirstSlice short 5 slice_first

abbrev three : Bytes
three = 0 ∷ 0 ∷ 1 ∷ []

extract_params_total_example :
    (extract_params (λ _. true) three empty_params ≢ out_of_fuel)
    × ((extract_params (λ _. true) three empty_params ≡ read_out_of_bounds)
        ↔ ((false ≡ false) × (length three < 4)))
extract_params_total_example = extract_params_total (λ _. true) three empty_params
