-- ===== src/RtspServer/Rtp/Units.antt =====
-- One packet of a fragmented NAL unit, as src/modules/rtsp/rtsp_server.c builds it, and what a
-- receiver reads in it.
use strero.Prelude.{
  ℕ, ◌+◌, ◌*◌, ◌/◌, ◌%◌, ◌<◌, ◌≡◌, refl, Bool, true, false, some, List, [], ◌∷◌, ◌++◌, leb,
  if◌then◌else◌, length, take, get_or, Bytes, arith, ap, ==_self,
}
use mathlib.Core.Option
use strero.RtspServer.{Client, VideoCodec, codec_h264, codec_h265, IsU16}
use strero.RtspServer.Rtp.{rtp_header, next_seq, fu_a, fu_h265}
use strero.RtspServer.Rtp.Fragments.{is_empty}
use strero.RtspServer.Rtp.Refinement.{fu_bytes, nal_header_size}
use strero.RtspServer.Rtp.Receiver.{
  agrees, fu_header, sequence_number, is_fragment, fragment, starts_unit, ends_unit, unit_header,
  gather,
}

-- The forbidden bit is 0, and the type is that of a single NAL unit.
abbrev pub IsNal : VideoCodec → Bytes → Type 0
IsNal codec_h264 nal = (0 < length nal) × (get_or nal 0 0 < 128) × (get_or nal 0 0 % 32 < 24)
IsNal codec_h265 nal = (1 < length nal) × (get_or nal 0 0 < 96) × (get_or nal 1 0 < 256)

abbrev pub fu_packet : VideoCodec → Client → Bytes → ℕ → Bool → Bool → Bool → Bytes → Bytes
fu_packet codec client nal timestamp marker first last piece =
    rtp_header client codec timestamp marker ++ fu_bytes codec nal first last ++ piece

sequence_number-fu_packet :
    (codec : VideoCodec) (client : Client) (nal : Bytes) (timestamp : ℕ) (marker first last : Bool)
    (piece : Bytes)
    → IsU16 client.rtp_seq
    → sequence_number (fu_packet codec client nal timestamp marker first last piece)
      ≡ client.rtp_seq
unfolding rtp_header
sequence_number-fu_packet codec client nal timestamp marker first last piece h = omega arith

fragment-fu_packet :
    (codec : VideoCodec) (client : Client) (nal : Bytes) (timestamp : ℕ) (marker first last : Bool)
    (piece : Bytes)
    → fragment codec (fu_packet codec client nal timestamp marker first last piece) ≡ piece
unfolding rtp_header fu_a fu_h265
fragment-fu_packet codec_h264 client nal timestamp marker first last piece = refl
fragment-fu_packet codec_h265 client nal timestamp marker first last piece = refl

-- The S bit, the E bit and the type of an FU header.
fu_header_bits :
    (type : ℕ) (first last : Bool)
    → type < 64
    → let fu = type + (if first then 128 else 0) + (if last then 64 else 0) in
      (leb 128 fu ≡ first) × (leb 64 (fu % 128) ≡ last) × (fu % 64 ≡ type)
fu_header_bits type first last h = (ground arith, ground arith, ground arith)

unit_type : VideoCodec → Bytes → ℕ
unit_type codec_h264 nal = get_or nal 0 0 % 32
unit_type codec_h265 nal = (get_or nal 0 0 * 256 + get_or nal 1 0) / 512 % 64

unit_type_small : (codec : VideoCodec) (nal : Bytes) → unit_type codec nal < 64
unfolding unit_type
unit_type_small codec_h264 nal = omega arith
unit_type_small codec_h265 nal = omega arith

fu_header-fu_packet :
    (codec : VideoCodec) (client : Client) (nal : Bytes) (timestamp : ℕ) (marker first last : Bool)
    (piece : Bytes)
    → fu_header codec (fu_packet codec client nal timestamp marker first last piece)
      ≡ unit_type codec nal + (if first then 128 else 0) + (if last then 64 else 0)
unfolding rtp_header fu_a fu_h265 unit_type
fu_header-fu_packet codec_h264 client nal timestamp marker first last piece = refl
fu_header-fu_packet codec_h265 client nal timestamp marker first last piece = refl

starts_unit-fu_packet :
    (codec : VideoCodec) (client : Client) (nal : Bytes) (timestamp : ℕ) (marker first last : Bool)
    (piece : Bytes)
    → starts_unit codec (fu_packet codec client nal timestamp marker first last piece) ≡ first
starts_unit-fu_packet codec client nal timestamp marker first last piece =
    rw (fu_header-fu_packet codec client nal timestamp marker first last piece)
      (fu_header_bits (unit_type codec nal) first last (unit_type_small codec nal)).0

ends_unit-fu_packet :
    (codec : VideoCodec) (client : Client) (nal : Bytes) (timestamp : ℕ) (marker first last : Bool)
    (piece : Bytes)
    → ends_unit codec (fu_packet codec client nal timestamp marker first last piece) ≡ last
ends_unit-fu_packet codec client nal timestamp marker first last piece =
    rw (fu_header-fu_packet codec client nal timestamp marker first last piece)
      (fu_header_bits (unit_type codec nal) first last (unit_type_small codec nal)).1

agrees_self : (b : Bool) → agrees b b ≡ true
agrees_self true = refl
agrees_self false = refl

-- One step of the receiver, on the packet of a piece.
pub gather-fu_packet :
    (codec : VideoCodec) (client : Client) (nal : Bytes) (timestamp : ℕ) (marker first last : Bool)
    (piece : Bytes) (later : List Bytes)
    → IsU16 client.rtp_seq
    → is_empty later ≡ last
    → gather codec first client.rtp_seq
        (fu_packet codec client nal timestamp marker first last piece ∷ later)
      ≡ (if last
          then some piece
          else Option.map
              (λ bytes. piece ++ bytes)
              (gather codec false ((client.rtp_seq + 1) % 65536) later))
unfolding gather
gather-fu_packet codec client nal timestamp marker first last piece later h e =
    rw (sequence_number-fu_packet codec client nal timestamp marker first last piece h) (
      rw (==_self client.rtp_seq) (
        rw (starts_unit-fu_packet codec client nal timestamp marker first last piece) (
          rw (ends_unit-fu_packet codec client nal timestamp marker first last piece) (
            rw (fragment-fu_packet codec client nal timestamp marker first last piece)
              (rw e (rw (agrees_self first) (rw (agrees_self last) refl)))))))

pub next_seq-IsU16 : (client : Client) → IsU16 (next_seq client).rtp_seq
unfolding next_seq
next_seq-IsU16 client = omega arith

pub is_fragment-fu_packet :
    (codec : VideoCodec) (client : Client) (nal : Bytes) (timestamp : ℕ) (marker first last : Bool)
    (piece : Bytes)
    → is_fragment codec (fu_packet codec client nal timestamp marker first last piece) ≡ true
unfolding rtp_header fu_a fu_h265
is_fragment-fu_packet codec_h264 client nal timestamp marker first last piece = ground arith
is_fragment-fu_packet codec_h265 client nal timestamp marker first last piece = ground arith

header_h264 :
    (a fu : ℕ) → a < 128 → fu % 64 ≡ a % 32 → (a / 32 % 4 * 32 + 28) / 32 * 32 + fu % 32 ≡ a
header_h264 a fu h e = omega arith

-- The payload header of a fragmentation unit, by the two bytes of the unit's own header.
payload_hdr_lem :
    (a b : ℕ)
    → b < 256
    → 25088 + (a * 256 + b) / 8 % 64 * 8 + (a * 256 + b) % 8 ≡ 25088 + a % 2 * 256 + b
payload_hdr_lem a b h = omega arith

first_h265 :
    (a b fu : ℕ)
    → a < 96
    → b < 256
    → fu % 64 ≡ (a * 256 + b) / 512 % 64
    → let high = (25088 + a % 2 * 256 + b) / 256 % 256 in
      high / 128 * 128 + fu % 64 * 2 + high % 2 ≡ a
first_h265 a b fu ha hb e = omega arith

second_h265 : (a b : ℕ) → b < 256 → (25088 + a % 2 * 256 + b) % 256 ≡ b
second_h265 a b h = omega arith

pub unit_header-fu_packet :
    (codec : VideoCodec) (client : Client) (nal : Bytes) (timestamp : ℕ) (marker first last : Bool)
    (piece : Bytes)
    → IsNal codec nal
    → unit_header codec (fu_packet codec client nal timestamp marker first last piece)
      ≡ take (nal_header_size codec) nal
unfolding rtp_header fu_a fu_h265 unit_type
unit_header-fu_packet codec_h264 client [] timestamp marker first last piece h = elim h.0 [ ]
unit_header-fu_packet codec_h264 client (a ∷ nal) timestamp marker first last piece h =
    ap (λ (v : ℕ). v ∷ [])
      (header_h264 a _ h.1 (fu_header_bits (a % 32) first last (omega arith)).2)
unit_header-fu_packet codec_h265 client [] timestamp marker first last piece h = elim h.0 [ ]
unit_header-fu_packet codec_h265 client (a ∷ []) timestamp marker first last piece h =
    ground (arith, h.0)
unit_header-fu_packet codec_h265 client (a ∷ b ∷ nal) timestamp marker first last piece h =
    rw (payload_hdr_lem a b h.2) (
      rw (second_h265 a b h.2) (
        ap (λ (v : ℕ). v ∷ b ∷ [])
          (first_h265 a b _ h.1 h.2
            (fu_header_bits ((a * 256 + b) / 512 % 64) first last (omega arith)).2)))
