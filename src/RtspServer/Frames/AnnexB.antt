-- ===== src/RtspServer/Frames/AnnexB.antt =====
-- `send_frame_to_client` of src/modules/rtsp/rtsp_server.c on the frames that an encoder writes:
-- NAL units with start codes of four bytes.
use strero.Prelude.{
  ℕ, zero, suc, ◌+◌, ◌-◌, ◌≤◌, ◌<◌, ◌≡◌, refl, ap, ◌∙◌, true, false, ◌||◌, none, Bool-cases, inl,
  inr, List, [], ◌∷◌, ◌++◌, append-nil, leb, ltb, ◌==◌, if◌then◌else◌, length, length-append, take,
  take-append_length, Bytes, arith,
}
use strero.FrameManager.Nal.{is_start4, is_start3}
use strero.FrameManager.Nal.AnnexB.{framed, HasNoStart}
use strero.RtspServer.{Client, Sockets, is_playing}
use strero.RtspServer.Frames.{
  scan_width, scan_starts, units, client_units, send_units, send_frame_to_client,
}

-- The frame of some NAL units.
abbrev pub frame_of : List Bytes → Bytes
frame_of [] = []
frame_of (nal ∷ nals) = framed (nal ++ frame_of nals)

-- No unit is empty, and no start code begins inside one.
abbrev pub IsStream : List Bytes → Type 0
IsStream [] = Unit
IsStream (nal ∷ nals) = (0 < length nal) × HasNoStart nal (frame_of nals) × IsStream nals

scan_width-framed : (rest : Bytes) → 0 < length rest → scan_width 3 (framed rest) ≡ 4
unfolding scan_width
scan_width-framed rest h = ground arith

scan_starts-framed :
    (limit fuel : ℕ) (rest : Bytes)
    → 0 < length rest
    → scan_starts 3 (suc limit) (suc fuel) (framed rest)
      ≡ (framed rest, rest) ∷ scan_starts 3 limit fuel rest
unfolding scan_starts
scan_starts-framed limit fuel rest h =
    let less : suc limit - 1 ≡ limit = omega arith in
    let some_left : (suc limit == 0) ≡ false = ground arith in
    rw (scan_width-framed rest h) (rw (less, some_left) refl)

-- A byte of a unit, where more than three bytes are left.
scan_starts-byte :
    (limit fuel x : ℕ) (at : Bytes)
    → 0 < limit
    → 2 < length at
    → (is_start4 (x ∷ at) || is_start3 (x ∷ at)) ≡ false
    → scan_starts 3 limit (suc fuel) (x ∷ at) ≡ scan_starts 3 limit fuel at
unfolding scan_starts scan_width
scan_starts-byte limit fuel x at l h none_here = ground arith

scan_starts-inside :
    (limit fuel : ℕ) (nal rest : Bytes)
    → 0 < limit
    → 3 < length rest
    → length nal ≤ fuel
    → HasNoStart nal rest
    → scan_starts 3 limit fuel (nal ++ rest) ≡ scan_starts 3 limit (fuel - length nal) rest
scan_starts-inside limit fuel [] rest l r f h = ap (λ n. scan_starts 3 limit n rest) (omega arith)
scan_starts-inside limit zero (x ∷ nal) rest l r f h = elim f [ ]
scan_starts-inside limit (suc fuel) (x ∷ nal) rest l r f h =
    scan_starts-byte limit fuel x (nal ++ rest) l (omega (arith, length-append nal rest)) h.0
    ∙ scan_starts-inside limit fuel nal rest l r (omega arith) h.1
    ∙ ap (λ n. scan_starts 3 limit n rest) (omega arith)

scan_starts_short : (limit fuel : ℕ) (at : Bytes) → length at ≤ 3 → scan_starts 3 limit fuel at ≡ []
unfolding scan_starts scan_width
scan_starts_short limit zero at h = refl
scan_starts_short limit (suc fuel) at h = ground arith

scan_starts_zero : (fuel : ℕ) (at : Bytes) → scan_starts 3 0 fuel at ≡ []
unfolding scan_starts
scan_starts_zero zero at = refl
scan_starts_zero (suc fuel) at = ground arith

-- The last unit.
scan_starts_last :
    (limit fuel : ℕ) (nal : Bytes) → HasNoStart nal [] → scan_starts 3 limit fuel (nal ++ []) ≡ []
unfolding scan_starts
scan_starts_last zero fuel nal h = scan_starts_zero fuel (nal ++ [])
scan_starts_last (suc limit) fuel [] h = scan_starts_short (suc limit) fuel [] (omega arith)
scan_starts_last (suc limit) zero (x ∷ nal) h = refl
scan_starts_last (suc limit) (suc fuel) (x ∷ nal) h = elim (Bool-cases (leb (length (x ∷ nal)) 3)) [
  | inl few ↦
      scan_starts_short (suc limit) (suc fuel) (x ∷ (nal ++ []))
        (ground (arith, length-append nal []))
  | inr many ↦
      scan_starts-byte (suc limit) fuel x (nal ++ []) (omega arith)
        (ground (arith, length-append nal [])) h.0
      ∙ scan_starts_last (suc limit) fuel nal h.1
]

-- The positions of the start codes of a frame, and what is behind them.
abbrev marks : List Bytes → List (Bytes × Bytes)
marks [] = []
marks (nal ∷ nals) = (frame_of (nal ∷ nals), nal ++ frame_of nals) ∷ marks nals

scan_starts-frame_of :
    (nals : List Bytes) (limit fuel : ℕ)
    → length nals ≤ limit
    → length (frame_of nals) ≤ fuel
    → IsStream nals
    → scan_starts 3 limit fuel (frame_of nals) ≡ marks nals
scan_starts-frame_of [] limit fuel l f h = scan_starts_short limit fuel [] (omega arith)
scan_starts-frame_of (nal ∷ nals) zero fuel l f h = elim l [ ]
scan_starts-frame_of (nal ∷ nals) (suc limit) zero l f h = elim f [ ]
scan_starts-frame_of (nal ∷ []) (suc limit) (suc fuel) l f (full, clean, _) =
    scan_starts-framed limit fuel (nal ++ []) (omega (arith, length-append nal []))
    ∙ ap (λ m. (framed (nal ++ []), nal ++ []) ∷ m) (scan_starts_last limit fuel nal clean)
scan_starts-frame_of (nal ∷ next ∷ nals) (suc limit) (suc fuel) l f (full, clean, later) =
    let rest : Bytes = frame_of (next ∷ nals) in
    let sizes : length (nal ++ rest) ≡ length nal + length rest = length-append nal rest in
    scan_starts-framed limit fuel (nal ++ rest) (omega (arith, sizes))
    ∙ ap (λ m. (framed (nal ++ rest), nal ++ rest) ∷ m)
        (scan_starts-inside limit fuel nal rest (omega arith) (omega arith) (omega (arith, sizes))
            clean
          ∙ scan_starts-frame_of (next ∷ nals) limit (fuel - length nal) (omega arith)
              (omega (arith, sizes)) later)

units-marks : (nals : List Bytes) → units (marks nals) ≡ nals
unfolding units
units-marks [] = refl
units-marks (nal ∷ []) = ap (λ n. n ∷ []) (append-nil nal)
units-marks (nal ∷ next ∷ nals) =
    let rest : Bytes = frame_of (next ∷ nals) in
    let size : length (nal ++ rest) - length rest ≡ length nal =
      omega (arith, length-append nal rest) in
    ap (λ n. take n (nal ++ rest) ∷ units (marks (next ∷ nals))) size
    ∙ ap (λ n. n ∷ units (marks (next ∷ nals))) (take-append_length nal rest)
    ∙ ap (λ l. nal ∷ l) (units-marks (next ∷ nals))

length-frame_of : (nals : List Bytes) → length nals ≤ length (frame_of nals)
length-frame_of [] = omega arith
length-frame_of (nal ∷ nals) =
    omega (arith, length-append nal (frame_of nals), length-frame_of nals)

pub client_units-frame_of :
    (nals : List Bytes) → IsStream nals → client_units (frame_of nals) ≡ nals
unfolding client_units
client_units-frame_of nals h =
    ap units (
      scan_starts-frame_of nals (length (frame_of nals)) (length (frame_of nals))
        (length-frame_of nals) (omega arith) h)
    ∙ units-marks nals

module _ {W : Type 0} (net : Sockets W) where
  -- A frame of 1 to 32 NAL units, each behind a start code of four bytes, not empty and with no
  -- start code inside: `send_frame_to_client` hands exactly these units, in order, to
  -- `send_rtp_packet`, with the marker on the last one, for a client that plays. (The arrays for
  -- the units have 32 entries: a frame with more of them is a fault.)
  pub send_frame_to_client-frame_of :
      (timestamp : ℕ) (client : Client) (nals : List Bytes) (w : W)
      → is_playing client.state ≡ true
      → 0 < length nals
      → IsStream nals
      → send_frame_to_client net timestamp client (frame_of nals) w
        ≡ (if ltb 32 (length nals) then none else send_units net timestamp nals client w)
  unfolding send_frame_to_client
  send_frame_to_client-frame_of timestamp client [] w plays h stream = elim h [ ]
  send_frame_to_client-frame_of timestamp client (nal ∷ nals) w plays h stream =
      let filled : (length (frame_of (nal ∷ nals)) == 0) ≡ false = ground arith in
      let long : ltb (length (frame_of (nal ∷ nals))) 3 ≡ false = ground arith in
      rw (client_units-frame_of (nal ∷ nals) stream) (rw plays (rw (filled, long) refl))
