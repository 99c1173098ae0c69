-- ===== src/RtspServer/Rtp/Receiver.antt =====
-- A receiver of RTP packets as RFC 6184 (H.264) and RFC 7798 (H.265) describe it: it puts the
-- fragmentation units of a NAL unit together again. It stands for no code of the server; what
-- src/modules/rtsp/rtsp_server.c sends is held against it.
use strero.Prelude.{
  ℕ, ◌+◌, ◌*◌, ◌/◌, ◌%◌, Bool, true, false, not, ◌&&◌, Option, none, some, List, [], ◌∷◌, ◌++◌, leb,
  ◌==◌, if◌then◌else◌, drop, get_or, Bytes,
}
use mathlib.Core.Option
use strero.RtspServer.{VideoCodec, codec_h264, codec_h265}
use strero.RtspServer.Rtp.Fragments.{is_empty}

abbrev pub agrees : Bool → Bool → Bool
agrees true b = b
agrees false b = not b

abbrev pub sequence_number : Bytes → ℕ
sequence_number packet = get_or packet 2 0 * 256 + get_or packet 3 0

-- The marker bit, and the timestamp.
abbrev pub has_marker : Bytes → Bool
has_marker packet = leb 128 (get_or packet 1 0)

abbrev pub is_fragment : VideoCodec → Bytes → Bool
is_fragment codec_h264 packet = get_or packet 12 0 % 32 == 28
is_fragment codec_h265 packet = get_or packet 12 0 / 2 % 64 == 49

-- The FU header stands behind the one byte of an FU indicator or the two of a payload header.
abbrev pub fu_header : VideoCodec → Bytes → ℕ
fu_header codec_h264 packet = get_or packet 13 0
fu_header codec_h265 packet = get_or packet 14 0

abbrev pub fragment : VideoCodec → Bytes → Bytes
fragment codec_h264 packet = drop 14 packet
fragment codec_h265 packet = drop 15 packet

-- The S and the E bit.
abbrev pub starts_unit : VideoCodec → Bytes → Bool
starts_unit codec packet = leb 128 (fu_header codec packet)

abbrev pub ends_unit : VideoCodec → Bytes → Bool
ends_unit codec packet = leb 64 (fu_header codec packet % 128)

-- The NAL unit header that a fragmentation unit stands for.
abbrev pub unit_header : VideoCodec → Bytes → Bytes
unit_header codec_h264 packet =
    (get_or packet 12 0 / 32 * 32 + fu_header codec_h264 packet % 32) ∷ []
unit_header codec_h265 packet =
    (get_or packet 12 0 / 128 * 128 + fu_header codec_h265 packet % 64 * 2 + get_or packet 12 0 % 2)
    ∷ get_or packet 13 0
    ∷ []

-- Joins the fragments, if the sequence numbers count on from `seq` without a gap, and the S and the
-- E bit stand on the first and on the last one only.
unfoldable pub gather : VideoCodec → Bool → ℕ → List Bytes → Option Bytes
gather codec first seq [] = none
gather codec first seq (packet ∷ later) =
    let rest = gather codec false ((seq + 1) % 65536) later in
    if sequence_number packet == seq
      && agrees (starts_unit codec packet) first
      && agrees (ends_unit codec packet) (is_empty later)
    then if is_empty later
      then some (fragment codec packet)
      else Option.map (λ bytes. fragment codec packet ++ bytes) rest
    else none

-- The NAL unit of the packets, from the sequence number `seq` on.
unfoldable pub receive : VideoCodec → ℕ → List Bytes → Option Bytes
receive codec seq [] = none
receive codec seq (packet ∷ later) =
    let units = gather codec true seq (packet ∷ later) in
    if is_fragment codec packet
    then Option.map (λ bytes. unit_header codec packet ++ bytes) units
    else if sequence_number packet == seq && is_empty later
    then some (drop 12 packet)
    else none
