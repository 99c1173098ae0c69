-- ===== src/FrameManager/Nal/AnnexB.antt =====
-- `extract_stream_params` of src/frame_manager.c on the byte streams that an encoder writes.
use strero.Prelude.{
  ℕ, suc, ◌+◌, ◌≡◌, ◌⊎◌, refl, sym, ap, ◌∙◌, Bool, true, false, ◌||◌, some, [], ◌∷◌, ◌++◌, length,
  take-append_length, drop-append_length, Bytes, arith, inl, inr,
}
use strero.FrameManager.{StreamParams, empty_params}
use strero.FrameManager.Nal.{is_start4, is_start3, nal_type_of, keep_nal, extract_params, extracted}
use strero.FrameManager.Nal.InBounds.{
  until_start_code, start_code_length, scan_step, scan_params, extract_params-loop,
}
use strero.FrameManager.Nal.Extraction.{scan_params_total, scan_params_inv}

-- A four-byte start code, and what follows.
abbrev pub framed : Bytes → Bytes
framed rest = 0 ∷ 0 ∷ 0 ∷ 1 ∷ rest

abbrev is_start : Bytes → Bool
is_start at = is_start4 at || is_start3 at

-- No start code begins inside `nal`, where `rest` follows. (An encoder's emulation prevention.)
abbrev pub HasNoStart : Bytes → Bytes → Type 0
HasNoStart [] rest = Unit
HasNoStart (x ∷ nal) rest = (is_start (x ∷ (nal ++ rest)) ≡ false) × HasNoStart nal rest

until_start_code-framed :
    (nal rest : Bytes)
    → HasNoStart nal (framed rest)
    → until_start_code (nal ++ framed rest) ≡ length nal
unfolding until_start_code
until_start_code-framed [] rest h = ground arith
until_start_code-framed (x ∷ nal) rest h = ground (arith, until_start_code-framed nal rest h.1)

module _ (malloc_ok : ℕ → Bool) where
  -- A round at a start code that a parameter set follows.
  scan_step-nal :
      (byte : ℕ) (nal rest : Bytes) (params : StreamParams)
      → (nal_type_of byte ≡ 7) ⊎ (nal_type_of byte ≡ 8)
      → HasNoStart nal (framed rest)
      → scan_step malloc_ok (framed (byte ∷ (nal ++ framed rest))) params
        ≡ (keep_nal malloc_ok (nal_type_of byte) (byte ∷ nal) params, framed rest)
  unfolding scan_step start_code_length
  scan_step-nal byte nal rest params t h = ground (
    arith,
    until_start_code-framed nal rest h,
    take-append_length nal (framed rest),
    drop-append_length nal (framed rest),
  )

  scan_params-nal :
      (fuel byte : ℕ) (nal rest : Bytes) (params : StreamParams)
      → (nal_type_of byte ≡ 7) ⊎ (nal_type_of byte ≡ 8)
      → HasNoStart nal (framed rest)
      → scan_params malloc_ok (suc fuel) (framed (byte ∷ (nal ++ framed rest))) params
        ≡ scan_params malloc_ok fuel
            (framed rest)
            (keep_nal malloc_ok (nal_type_of byte) (byte ∷ nal) params)
  unfolding scan_params
  scan_params-nal fuel byte nal rest params t h =
      rw (scan_step-nal byte nal rest params t h) (ground arith)

  keep_nal_both :
      (sps_byte pps_byte : ℕ) (sps pps : Bytes)
      → nal_type_of sps_byte ≡ 7
      → nal_type_of pps_byte ≡ 8
      → ((n : ℕ) → malloc_ok n ≡ true)
      → keep_nal malloc_ok
          (nal_type_of pps_byte)
          (pps_byte ∷ pps)
          (keep_nal malloc_ok (nal_type_of sps_byte) (sps_byte ∷ sps) empty_params)
        ≡ record { sps = some (sps_byte ∷ sps); pps = some (pps_byte ∷ pps); available = true }
  unfolding keep_nal
  keep_nal_both sps_byte pps_byte sps pps t7 t8 m =
      ground (arith, m (length (sps_byte ∷ sps)), m (length (pps_byte ∷ pps)))

  -- Complete parameters stay as they are.
  scan_params_complete :
      (sps pps : Bytes) (fuel : ℕ) (at : Bytes) (found : StreamParams)
      → scan_params malloc_ok fuel at (record { sps = some sps; pps = some pps; available = true })
        ≡ some found
      → found ≡ record { sps = some sps; pps = some pps; available = true }
  unfolding scan_step keep_nal
  scan_params_complete sps pps fuel at found e =
      scan_params_inv malloc_ok
        (λ (p : StreamParams). p ≡ record { sps = some sps; pps = some pps; available = true })
        (λ at p h. ground arith) fuel at _ found refl e

  -- A frame that begins with an SPS and a PPS, each behind a four-byte start code and free of
  -- start codes, and goes on with a start code: from empty parameters, exactly those two byte
  -- strings are stored, and the parameters are complete, if memory can be allocated.
  pub extract_params-sps_pps :
      (sps_byte : ℕ) (sps : Bytes) (pps_byte : ℕ) (pps : Bytes) (rest : Bytes)
      → nal_type_of sps_byte ≡ 7
      → nal_type_of pps_byte ≡ 8
      → HasNoStart sps (framed (pps_byte ∷ (pps ++ framed rest)))
      → HasNoStart pps (framed rest)
      → ((n : ℕ) → malloc_ok n ≡ true)
      → extract_params malloc_ok
          (framed (sps_byte ∷ (sps ++ framed (pps_byte ∷ (pps ++ framed rest)))))
          empty_params
        ≡ extracted
            (record { sps = some (sps_byte ∷ sps); pps = some (pps_byte ∷ pps); available = true })
  extract_params-sps_pps sps_byte sps pps_byte pps rest t7 t8 hs hp m =
      let (found, run) =
        scan_params_total malloc_ok (suc (suc fuel)) frame empty_params (omega arith) in
      let two : scan_params malloc_ok (suc (suc fuel)) frame empty_params
          ≡ scan_params malloc_ok fuel (framed rest) complete =
        scan_params-nal (suc fuel) sps_byte sps (pps_byte ∷ (pps ++ framed rest)) empty_params
          (inl t7) hs
        ∙ scan_params-nal fuel pps_byte pps rest _ (inr t8) hp
        ∙ ap (scan_params malloc_ok fuel (framed rest))
            (keep_nal_both sps_byte pps_byte sps pps t7 t8 m) in
      let done : found ≡ complete =
        scan_params_complete (sps_byte ∷ sps) (pps_byte ∷ pps) fuel (framed rest) found
          (sym two ∙ run) in
      ground (arith, extract_params-loop malloc_ok frame empty_params)
    where
      frame : Bytes
      frame = framed (sps_byte ∷ (sps ++ framed (pps_byte ∷ (pps ++ framed rest))))

      fuel : ℕ
      fuel = 4 + length (sps ++ framed (pps_byte ∷ (pps ++ framed rest)))

      complete : StreamParams
      complete = record {
        sps = some (sps_byte ∷ sps);
        pps = some (pps_byte ∷ pps);
        available = true;
      }
