-- ===== src/RtspServer/Frames.antt =====
-- A frame on its way to a client: `send_frame_to_client` of src/modules/rtsp/rtsp_server.c, and
-- `rtsp_server_send_frame` up to its return (what stands behind is never reached).
--
-- A position in a frame is the list of the bytes from there to its end.
pub mod AnnexB
pub mod Arrival
pub mod Broadcast
mod Scan
pub mod Waiting
mod Examples
use mathlib.Core.Option
use strero.Prelude.{
  ℕ, zero, suc, ◌+◌, ◌-◌, ◌*◌, ◌/◌, ◌%◌, ◌≤◌, ◌<◌, Bool, true, false, not, ◌&&◌, ◌||◌, Option, none,
  some, List, [], ◌∷◌, ◌++◌, leb, ltb, ◌==◌, if◌then◌else◌, length, take, drop, get_or, Bytes, ℤ,
  pos, negsuc,
}
use strero.FrameManager.Nal.{is_start4, is_start3}
use strero.RtspServer.{Client, Sockets, VideoCodec, codec_h264, codec_h265, is_playing}
use strero.RtspServer.Rtp.{Sending}
use strero.RtspServer.Rtp.Dispatch.{send_rtp_packet}

-- How far a round of the scan moves: over a start code, over a byte, or not at all, when no more
-- than `tail` bytes are left.
unfoldable pub scan_width : ℕ → Bytes → ℕ
scan_width tail at =
    if not (ltb tail (length at))
    then 0
    else if ltb (tail + 1) (length at) && is_start4 at
    then 4
    else if is_start3 at
    then 3
    else 1

-- The positions of at most `limit` start codes, each with the position behind it.
unfoldable pub scan_starts : ℕ → ℕ → ℕ → Bytes → List (Bytes × Bytes)
scan_starts tail limit zero at = []
scan_starts tail limit (suc fuel) at =
    let width = scan_width tail at in
    let rest = scan_starts tail (if leb 3 width then limit - 1 else limit) fuel (drop width at) in
    if limit == 0 || width == 0
    then []
    else if leb 3 width
    then (at, drop width at) ∷ rest
    else rest

-- The NAL units: each goes up to the next start code, and the last one to the end of the frame.
unfoldable pub units : List (Bytes × Bytes) → List Bytes
units [] = []
units ((start, nal) ∷ []) = nal ∷ []
units ((start, nal) ∷ (next, nal') ∷ later) =
    take (length nal - length next) nal ∷ units ((next, nal') ∷ later)

-- `send_frame_to_client` looks for any number of start codes, while more than three bytes are left.
unfoldable pub client_units : Bytes → List Bytes
client_units frame = units (scan_starts 3 (length frame) (length frame) frame)

-- `rtsp_server_send_frame` looks for 100 of them, to the end.
unfoldable pub server_units : Bytes → List Bytes
server_units frame = units (scan_starts 0 100 (length frame) frame)

abbrev pub is_last : List Bytes → Bool
is_last [] = true
is_last (_ ∷ _) = false

module _ {W : Type 0} (net : Sockets W) where
  -- The units in order, the last one with the marker; an empty one is left out.
  unfoldable pub send_units : ℕ → List Bytes → Client → W → Option (Client × W)
  send_units timestamp [] client w = some (client, w)
  send_units timestamp (nal ∷ later) client w = elim (length nal == 0) [
    | true ↦ send_units timestamp later client w
    | false ↦
        Option.bind (send_rtp_packet net client nal timestamp (is_last later) w)
          (λ sent. send_units timestamp later sent.1 sent.2)
  ]

  -- `none` is a fault: a frame of fewer than 3 bytes, whose size less 3 wraps, is read behind its
  -- end, and the arrays for the units have 32 entries.
  unfoldable pub send_frame_to_client : ℕ → Client → Bytes → W → Option (Client × W)
  send_frame_to_client timestamp client frame w =
      if length frame == 0 || not (is_playing client.state)
      then some (client, w)
      else if ltb (length frame) 3 || ltb 32 (length (client_units frame))
      then none
      else send_units timestamp (client_units frame) client w

-- A unit of an IDR frame: IDR_W_RADL, IDR_N_LP or CRA_NUT of H.265, or type 5 of H.264.
unfoldable pub is_idr_unit : VideoCodec → Bytes → Bool
is_idr_unit codec_h264 nal = leb 1 (length nal) && get_or nal 0 0 % 32 == 5
is_idr_unit codec_h265 nal =
    leb 2 (length nal) && leb 19 (get_or nal 0 0 / 2 % 64) && leb (get_or nal 0 0 / 2 % 64) 21

-- A parameter set: VPS, SPS or PPS.
unfoldable pub is_parameter_set : VideoCodec → Bytes → Bool
is_parameter_set codec_h264 nal =
    leb 1 (length nal) && (get_or nal 0 0 % 32 == 7 || get_or nal 0 0 % 32 == 8)
is_parameter_set codec_h265 nal =
    leb 2 (length nal) && leb 32 (get_or nal 0 0 / 2 % 64) && leb (get_or nal 0 0 / 2 % 64) 34

unfoldable pub any_unit : (Bytes → Bool) → List Bytes → Bool
any_unit test [] = false
any_unit test (nal ∷ later) = test nal || any_unit test later

-- What a client that waits for an IDR frame does with a frame: it gets it or not, and it waits on
-- or not.
pub record Gate : Type 0 where
  pub gets_frame : Bool
  pub needs_idr : Bool

-- The wait has lasted for more than five seconds, of unsigned long.
unfoldable pub waited_long : ℕ → Client → Bool
waited_long now_us client =
    ltb 5000000 ((now_us + 4294967296 - client.idr_wait_start_us) % 4294967296)

unfoldable pub gate_of : Bool → Bool → ℕ → Client → Gate
gate_of is_idr_frame has_parameter_sets now_us client =
    if not client.needs_idr
    then record { gets_frame = true; needs_idr = false }
    else if waited_long now_us client || is_idr_frame
    then record { gets_frame = true; needs_idr = false }
    else record { gets_frame = has_parameter_sets; needs_idr = true }

-- (video_channel == channel)
unfoldable pub same_channel : ℤ → ℤ → Bool
same_channel (pos a) (pos b) = a == b
same_channel (negsuc a) (negsuc b) = a == b
same_channel _ _ = false

unfoldable pub watches : ℤ → Client → Bool
watches channel client =
    client.active && is_playing client.state && same_channel client.video_channel channel
