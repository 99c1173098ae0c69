-- ===== src/FrameManager/Nal/Extraction.antt =====
-- What `extract_stream_params` of src/frame_manager.c finds in a frame.
use strero.Prelude.{
  ℕ, zero, suc, ◌<◌, ◌≡◌, ◌≢◌, ◌⊎◌, ◌↔◌, refl, none, subst, Bool, false, ◌&&◌, some, ltb, ltb→lt,
  length, length-drop, drop, Bytes, arith, Bool-cases, inl, inr,
}
use strero.FrameManager.{StreamParams, is_some}
use strero.FrameManager.Nal.{keep_nal, extract_params, extracted, read_out_of_bounds, out_of_fuel}
use strero.FrameManager.Nal.InBounds.{
  until_start_code, start_code_length, scan_step, scan_params, extract_params-loop,
}

abbrev pub IsConsistent : StreamParams → Type 0
IsConsistent p = p.available ≡ (is_some p.sps && is_some p.pps)

-- What was known before is kept.
abbrev pub Extends : StreamParams → StreamParams → Type 0
Extends old new =
    ((old.sps ≡ none) ⊎ (new.sps ≡ old.sps)) × ((old.pps ≡ none) ⊎ (new.pps ≡ old.pps))

module _ (malloc_ok : ℕ → Bool) where
  -- Each round moves on, while more than four bytes are left.
  scan_step-advances :
      (at : Bytes) (params : StreamParams)
      → 4 < length at
      → length (scan_step malloc_ok at params).1 < length at
  unfolding scan_step
  scan_step-advances at params h = ground (
    arith,
    length-drop 1 at,
    length-drop (start_code_length at) at,
    length-drop (suc (until_start_code (drop 1 (drop (start_code_length at) at))))
        (drop (start_code_length at) at),
  )

  pub scan_params_total :
      (fuel : ℕ) (at : Bytes) (params : StreamParams)
      → length at < fuel
      → (params' : StreamParams) × (scan_params malloc_ok fuel at params ≡ some params')
  unfolding scan_params
  scan_params_total zero at params h = elim h [ ]
  scan_params_total (suc fuel) at params h = elim (Bool-cases (ltb 4 (length at))) [
    | inl more ↦
        let (params', next) = scan_step malloc_ok at params in
        rw more (
          scan_params_total fuel next params'
            (omega (arith, scan_step-advances at params (ltb→lt 4 (length at) more))))
    | inr done ↦ (params, rw done)
  ]

  -- An invariant of a round is one of the whole loop.
  pub scan_params_inv :
      (P : StreamParams → Type 0)
      → ((at : Bytes) (params : StreamParams) → P params → P (scan_step malloc_ok at params).0)
      → (fuel : ℕ) (at : Bytes) (params params' : StreamParams) → P params
      → scan_params malloc_ok fuel at params ≡ some params'
      → P params'
  unfolding scan_params
  scan_params_inv P keep zero at params params' h e = cc
  scan_params_inv P keep (suc fuel) at params params' h e = elim (Bool-cases (ltb 4 (length at))) [
    | inl more ↦
        scan_params_inv P keep fuel (scan_step malloc_ok at params).1
          (scan_step malloc_ok at params).0 params' (keep at params h) (rw more at e)
    | inr done ↦ let same : params ≡ params' = ground arith in subst P same h
  ]

  -- `extract_stream_params`, every read of which is tested, ends, whatever the frame holds. It reads
  -- behind the end of the frame exactly if the frame has fewer than 4 bytes while a parameter set is
  -- missing.
  pub extract_params_total :
      (frame : Bytes) (params : StreamParams)
      → (extract_params malloc_ok frame params ≢ out_of_fuel)
        × ((extract_params malloc_ok frame params ≡ read_out_of_bounds)
            ↔ ((params.available ≡ false) × (length frame < 4)))
  extract_params_total frame params =
      let (params', e) = scan_params_total (suc (length frame)) frame params (omega arith) in
      rw (extract_params-loop malloc_ok frame params, e)
        (ground arith, (ground arith, ground arith))

  pub scan_step-IsConsistent :
      (at : Bytes) (params : StreamParams)
      → IsConsistent params
      → IsConsistent (scan_step malloc_ok at params).0
  unfolding scan_step keep_nal
  scan_step-IsConsistent at params h = ground arith

  pub scan_step-Extends :
      (old : StreamParams) (at : Bytes) (params : StreamParams)
      → Extends old params
      → Extends old (scan_step malloc_ok at params).0
  unfolding scan_step keep_nal
  scan_step-Extends old at params h = (ground arith, ground arith)

  extract_params_inv :
      (P : StreamParams → Type 0)
      → ((at : Bytes) (params : StreamParams) → P params → P (scan_step malloc_ok at params).0)
      → (frame : Bytes) (params params' : StreamParams) → P params
      → extract_params malloc_ok frame params ≡ extracted params'
      → P params'
  extract_params_inv P keep frame params params' h e = elim (Bool-cases params.available) [
    | inl a ↦
        let same : params ≡ params' = ground (arith, extract_params-loop malloc_ok frame params) in
        subst P same h
    | inr a ↦
        let (found, run) = scan_params_total (suc (length frame)) frame params (omega arith) in
        let same : found ≡ params' = ground (arith, extract_params-loop malloc_ok frame params) in
        subst P same (scan_params_inv P keep (suc (length frame)) frame params found h run)
  ]

  -- A call keeps the flag `available` exact (both parameter sets are there), and never replaces a
  -- parameter set that is known.
  pub extract_params_keeps :
      (frame : Bytes) (params params' : StreamParams)
      → IsConsistent params
      → extract_params malloc_ok frame params ≡ extracted params'
      → IsConsistent params' × Extends params params'
  extract_params_keeps frame params params' c e = (
    extract_params_inv IsConsistent scan_step-IsConsistent frame params params' c e,
    extract_params_inv (Extends params) (scan_step-Extends params) frame params params'
        (inr refl, inr refl) e,
  )
