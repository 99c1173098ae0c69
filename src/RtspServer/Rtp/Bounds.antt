-- ===== src/RtspServer/Rtp/Bounds.antt =====
-- The size and the marker of the packets that src/modules/rtsp/rtsp_server.c sends.
use strero.Prelude.{
  ℕ, zero, suc, ◌+◌, ◌≤◌, ◌<◌, ◌≡◌, refl, sym, Bool, true, false, ◌&&◌, some, List, [], ◌∷◌, ◌++◌,
  map, leb, length, drop, Bytes, is_negative, All, arith, ap, subst, ◌∙◌, Bool-cases, inl, inr,
  length-take,
}
use strero.RtspServer.{
  Client, VideoCodec, codec_h264, codec_h265, transport_udp, client_state_playing,
  max_rtp_packet_size,
}
use strero.RtspServer.Rtp.{Sending, rtp_header, next_seq, skip_start_code, fu_a, fu_h265}
use strero.RtspServer.Rtp.Dispatch.{send_rtp_packet}
use strero.RtspServer.Rtp.Fragments.{is_empty, pieces, packets, is_empty-packets}
use strero.RtspServer.Rtp.Refinement.{rtp_packets, fu_bytes, max_payload, nal_header_size}
use strero.RtspServer.Rtp.Receiver.{has_marker}
use strero.RtspServer.Rtp.Delivery.{recording, delivered}

abbrev pub FitsPacket : Bytes → Type 0
FitsPacket packet = length packet ≤ max_rtp_packet_size

-- `marker` on the last packet, and no marker on the others.
abbrev pub on_last : Bool → List Bytes → List Bool
on_last marker [] = []
on_last marker (packet ∷ later) = (is_empty later && marker) ∷ on_last marker later

length-rtp_header :
    (client : Client) (codec : VideoCodec) (timestamp : ℕ) (marker : Bool) (rest : Bytes)
    → length (rtp_header client codec timestamp marker ++ rest) ≡ 12 + length rest
unfolding rtp_header
length-rtp_header client codec timestamp marker rest = omega arith

length-fu_bytes :
    (codec : VideoCodec) (nal : Bytes) (first last : Bool) (rest : Bytes)
    → 12 + length (fu_bytes codec nal first last ++ rest) + max_payload codec
      ≡ max_rtp_packet_size + length rest
unfolding fu_a fu_h265
length-fu_bytes codec_h264 nal first last rest = omega arith
length-fu_bytes codec_h265 nal first last rest = omega arith

has_marker-rtp_header :
    (client : Client) (codec : VideoCodec) (timestamp : ℕ) (marker : Bool) (rest : Bytes)
    → has_marker (rtp_header client codec timestamp marker ++ rest) ≡ marker
unfolding rtp_header
has_marker-rtp_header client codec_h264 timestamp true rest = refl
has_marker-rtp_header client codec_h264 timestamp false rest = refl
has_marker-rtp_header client codec_h265 timestamp true rest = refl
has_marker-rtp_header client codec_h265 timestamp false rest = refl

on_last-packets :
    (codec : VideoCodec) (fu : Bool → Bool → Bytes) (timestamp : ℕ) (marker first : Bool)
    (client : Client) (parts : List Bytes)
    → map has_marker (packets codec fu timestamp marker first client parts)
      ≡ on_last marker (packets codec fu timestamp marker first client parts)
unfolding packets rtp_header
on_last-packets codec fu timestamp marker first client [] = refl
on_last-packets codec fu timestamp marker first client (piece ∷ later) =
    let rest : List Bytes = packets codec fu timestamp marker false (next_seq client) later in
    let packet : Bytes =
      rtp_header client codec timestamp (is_empty later && marker)
      ++ fu first (is_empty later)
      ++ piece in
    let head : has_marker packet ≡ (is_empty rest && marker) =
      has_marker-rtp_header client codec timestamp (is_empty later && marker)
        (fu first (is_empty later) ++ piece)
      ∙ sym (
          ap (λ e. e && marker)
            (is_empty-packets codec fu timestamp marker false (next_seq client) later)) in
    ap (λ b. b ∷ map has_marker rest) head
    ∙ ap (λ l. (is_empty rest && marker) ∷ l)
        (on_last-packets codec fu timestamp marker false (next_seq client) later)

packets-FitsPacket :
    (codec : VideoCodec) (nal : Bytes) (timestamp : ℕ) (marker first : Bool) (client : Client)
    (fuel : ℕ) (bytes : Bytes)
    → All FitsPacket (
        packets codec
          (fu_bytes codec nal)
          timestamp
          marker
          first
          client
          (pieces (max_payload codec) fuel bytes))
unfolding packets pieces rtp_header
packets-FitsPacket codec nal timestamp marker first client zero bytes = tt
packets-FitsPacket codec nal timestamp marker first client (suc fuel) [] = tt
packets-FitsPacket codec nal timestamp marker first client (suc fuel) (x ∷ xs) = (
  omega (arith, length-fu_bytes codec nal first, length-take (max_payload codec) (x ∷ xs)),
  packets-FitsPacket codec nal timestamp marker false (next_seq client) fuel
      (drop (max_payload codec) (x ∷ xs)),
)

single_size :
    (codec : VideoCodec) (nal : Bytes)
    → leb (length nal) (max_payload codec) ≡ true
    → 12 + length nal ≤ max_rtp_packet_size
single_size codec_h264 nal fits = ground arith
single_size codec_h265 nal fits = ground arith

rtp_packets-FitsPacket :
    (codec : VideoCodec) (client : Client) (nal : Bytes) (timestamp : ℕ) (marker : Bool)
    → All FitsPacket (rtp_packets codec client nal timestamp marker)
unfolding rtp_packets rtp_header
rtp_packets-FitsPacket codec client nal timestamp marker =
    elim (Bool-cases (leb (length nal) (max_payload codec))) [
      | inl fits ↦ rw fits (omega (arith, single_size codec nal fits), tt)
      | inr more ↦ rw more (
          packets-FitsPacket codec nal timestamp marker true client _
            (drop (nal_header_size codec) nal))
    ]

on_last-rtp_packets :
    (codec : VideoCodec) (client : Client) (nal : Bytes) (timestamp : ℕ) (marker : Bool)
    → map has_marker (rtp_packets codec client nal timestamp marker)
      ≡ on_last marker (rtp_packets codec client nal timestamp marker)
unfolding rtp_packets
on_last-rtp_packets codec client nal timestamp marker =
    elim (Bool-cases (leb (length nal) (max_payload codec))) [
      | inl fits ↦
          rw fits (ap (λ b. b ∷ []) (has_marker-rtp_header client codec timestamp marker nal))
      | inr more ↦ rw more (
          on_last-packets codec (fu_bytes codec nal) timestamp marker true client (
            pieces (max_payload codec) (suc (length (drop (nal_header_size codec) nal)))
              (drop (nal_header_size codec) nal)))
    ]

-- For a client that plays over UDP, on a socket that takes every datagram, and a NAL unit of 2 to
-- 307,200 bytes without a start code: no datagram of `send_rtp_packet` is longer than the 1200
-- bytes of MAX_RTP_PACKET_SIZE (the size of the stack buffer it is built in), and the marker bit
-- that the caller asks for is on the last one, and on no other.
pub send_rtp_packet-FitsPacket :
    (client : Client) (nal : Bytes) (timestamp : ℕ) (marker : Bool)
    → client.state ≡ client_state_playing
    → client.transport_mode ≡ transport_udp
    → is_negative client.rtp_socket_fd ≡ false
    → skip_start_code nal ≡ nal
    → 1 < length nal
    → length nal ≤ 307200
    → (sent : Sending (List Bytes)) × (send_rtp_packet recording client nal timestamp marker []
        ≡ some sent)
      × All FitsPacket sent.2
      × (map has_marker sent.2 ≡ on_last marker sent.2)
send_rtp_packet-FitsPacket client nal timestamp marker playing udp fd bare long size =
    let (sent, run, ok, what) =
      delivered client nal timestamp marker playing udp fd bare long size in
    (
      sent,
      run,
      subst (All FitsPacket) (sym what)
          (rtp_packets-FitsPacket client.codec client nal timestamp marker),
      subst (λ (l : List Bytes). map has_marker l ≡ on_last marker l) (sym what)
          (on_last-rtp_packets client.codec client nal timestamp marker),
    )
