-- ===== src/RtspServer/Rtp/Refinement.antt =====
-- `send_rtp_packet` of src/modules/rtsp/rtsp_server.c against the list of packets of a NAL unit.
use strero.Prelude.{
  ℕ, suc, ◌≤◌, ◌<◌, ◌≡◌, refl, Bool, true, false, some, List, [], ◌∷◌, ◌++◌, leb, ltb,
  if◌then◌else◌, length, drop, get_or, Bytes, pos, minus_one, is_negative, arith, ap, Bool-cases,
  inl, inr,
}
use mathlib.Core.Option
use strero.RtspServer.{
  Client, Sockets, VideoCodec, codec_h264, codec_h265, transport_udp, client_state_playing,
  is_playing,
}
use strero.RtspServer.Rtp.{
  Sending, rtp_header, next_seq, skip_start_code, single_result, deliver_over, deliver_packet,
  send_single, fu_a, fu_h265, fragment_h264, fragment_h265, send_h264_fragmented_rtp,
  send_h265_fragmented_rtp,
}
use strero.RtspServer.Rtp.Dispatch.{send_packet, send_small, send_fragmented, send_rtp_packet}
use strero.RtspServer.Rtp.Fragments.{pieces, packets, transmit, fragment_loop-transmit}

abbrev pub max_payload : VideoCodec → ℕ
max_payload codec_h264 = 1186
max_payload codec_h265 = 1185

abbrev pub nal_header_size : VideoCodec → ℕ
nal_header_size codec_h264 = 1
nal_header_size codec_h265 = 2

abbrev pub fu_bytes : VideoCodec → Bytes → Bool → Bool → Bytes
fu_bytes codec_h264 nal = fu_a (get_or nal 0 0)
fu_bytes codec_h265 nal = fu_h265 (get_or nal 0 0) (get_or nal 1 0)

abbrev pub fu_packets : VideoCodec → Client → Bytes → ℕ → Bool → List Bytes
fu_packets codec client nal timestamp marker =
    let payload = drop (nal_header_size codec) nal in
    packets codec (fu_bytes codec nal) timestamp marker true client
      (pieces (max_payload codec) (suc (length payload)) payload)

-- The packets of a NAL unit: the unit itself if it fits, else its fragmentation units.
unfoldable pub rtp_packets : VideoCodec → Client → Bytes → ℕ → Bool → List Bytes
rtp_packets codec client nal timestamp marker =
    if leb (length nal) (max_payload codec)
    then (rtp_header client codec timestamp marker ++ nal) ∷ []
    else fu_packets codec client nal timestamp marker

-- Whether a call failed, the client and the outside.
abbrev pub outcome : {W : Type 0} → Sending W → Bool × Client × W
outcome (result, client, w) = (is_negative result, client, w)

outcome_single :
    {W : Type 0} (packet : Bytes) (client : Client) (r : Bool × W)
    → outcome (single_result packet client r)
      ≡ outcome (if r.0 then (pos 1, client, r.1) else (minus_one, client, r.1))
unfolding single_result
outcome_single packet client (true, w) = refl
outcome_single packet client (false, w) = refl

module _ {W : Type 0} (net : Sockets W) where
  fragment_h264-transmit :
      (client : Client) (nal : Bytes) (timestamp : ℕ) (marker : Bool) (w : W)
      → 0 < length nal
      → Option.map outcome (fragment_h264 net client nal timestamp marker w)
        ≡ some (
            outcome (
              transmit net codec_h264
                (rtp_packets codec_h264 client nal timestamp marker)
                0
                client
                w))
  unfolding fragment_h264 rtp_packets send_single transmit
  fragment_h264-transmit client [] timestamp marker w h = elim h [ ]
  fragment_h264-transmit client (x ∷ xs) timestamp marker w h =
      elim (Bool-cases (leb (length (x ∷ xs)) 1186)) [
        | inl fits ↦ rw fits (ap some (outcome_single _ _ _))
        | inr more ↦ rw more (
            ap (λ r. Option.map outcome r)
              (fragment_loop-transmit net codec_h264 1186 (fu_a x) timestamp marker
                (suc (length xs)) xs 0 client w (omega arith) (omega arith)))
      ]

  fragment_h265-transmit :
      (client : Client) (nal : Bytes) (timestamp : ℕ) (marker : Bool) (w : W)
      → 1185 < length nal
      → Option.map outcome (fragment_h265 net client nal timestamp marker w)
        ≡ some (
            outcome (
              transmit net codec_h265
                (fu_packets codec_h265 client nal timestamp marker)
                0
                client
                w))
  unfolding fragment_h265
  fragment_h265-transmit client [] timestamp marker w h = elim h [ ]
  fragment_h265-transmit client (x ∷ []) timestamp marker w h = ground arith
  fragment_h265-transmit client (x ∷ y ∷ xs) timestamp marker w h =
      ap (λ r. Option.map outcome r)
        (fragment_loop-transmit net codec_h265 1185 (fu_h265 x y) timestamp marker (suc (length xs))
          xs 0 client w (omega arith) (omega arith))

  -- For a unit that is not small, on either transport.
  send_fragmented-transmit :
      (codec : VideoCodec) (client : Client) (nal : Bytes) (timestamp : ℕ) (marker : Bool) (w : W)
      → skip_start_code nal ≡ nal
      → 0 < length nal
      → length nal ≤ 307200
      → Option.map outcome (send_fragmented net codec client nal timestamp marker w)
        ≡ some (
            outcome (transmit net codec (rtp_packets codec client nal timestamp marker) 0 client w))
  unfolding send_fragmented send_h264_fragmented_rtp send_h265_fragmented_rtp send_single
      rtp_packets transmit
  send_fragmented-transmit codec_h264 client nal timestamp marker w bare some_bytes size =
      let in_limit : ltb 307200 (length nal) ≡ false = ground arith in
      rw in_limit (rw bare (fragment_h264-transmit client nal timestamp marker w some_bytes))
  send_fragmented-transmit codec_h265 client nal timestamp marker w bare some_bytes size =
      rw bare (elim (Bool-cases (leb (length nal) 1185)) [
        | inl fits ↦ rw fits (ap some (outcome_single _ _ _))
        | inr more ↦ rw more (fragment_h265-transmit client nal timestamp marker w (ground arith))
      ])

  -- For a client that plays over UDP, on an open RTP socket.
  send_small-transmit :
      (codec : VideoCodec) (client : Client) (nal : Bytes) (timestamp : ℕ) (marker : Bool) (w : W)
      → skip_start_code nal ≡ nal
      → 1 < length nal
      → length nal ≤ 1184
      → client.transport_mode ≡ transport_udp
      → is_negative client.rtp_socket_fd ≡ false
      → outcome (send_small net codec client nal timestamp marker w)
        ≡ outcome (transmit net codec (rtp_packets codec client nal timestamp marker) 0 client w)
  unfolding send_small rtp_packets send_packet transmit deliver_packet deliver_over next_seq
  send_small-transmit codec_h264 client nal timestamp marker w bare long size udp fd =
      let fits : leb (length nal) 1186 ≡ true = ground arith in
      rw fits (rw udp (rw fd (outcome_single _ _ _)))
  send_small-transmit codec_h265 client nal timestamp marker w bare long size udp fd =
      let fits : leb (length nal) 1185 ≡ true = ground arith in
      let two : leb 2 (length nal) ≡ true = ground arith in
      rw bare (rw two (rw fits (rw udp (rw fd (outcome_single _ _ _)))))

  -- `send_rtp_packet` for a client that plays over UDP on an open RTP socket, on a NAL unit of 2 to
  -- 307,200 bytes that does not begin with a start code: it hands over exactly the packets of the
  -- unit, in order, up to the first one that `sendto` refuses, and answers a negative number if
  -- and only if there is such a packet. The loop over the fragments always ends.
  pub send_rtp_packet-transmit :
      (client : Client) (nal : Bytes) (timestamp : ℕ) (marker : Bool) (w : W)
      → client.state ≡ client_state_playing
      → client.transport_mode ≡ transport_udp
      → is_negative client.rtp_socket_fd ≡ false
      → skip_start_code nal ≡ nal
      → 1 < length nal
      → length nal ≤ 307200
      → Option.map outcome (send_rtp_packet net client nal timestamp marker w)
        ≡ some (
            outcome (
              transmit net client.codec
                (rtp_packets client.codec client nal timestamp marker)
                0
                client
                w))
  unfolding send_rtp_packet
  send_rtp_packet-transmit client nal timestamp marker w playing udp fd bare long size =
      let live : is_playing client.state ≡ true = ap is_playing playing in
      rw live (elim (Bool-cases (ltb 1184 (length nal))) [
        | inl large ↦ rw large (
            send_fragmented-transmit client.codec client nal timestamp marker w bare (omega arith)
              size)
        | inr small ↦ rw small (
            ap some (
              send_small-transmit client.codec client nal timestamp marker w bare long
                (ground arith) udp fd))
      ])
