-- ===== src/RtspServer/Examples.antt =====
-- The theorems on src/modules/rtsp/rtsp_server.c at concrete inputs, and tests.
use mathlib.Core.Option
use strero.Prelude.{
  ℕ, zero, suc, ◌≤◌, ◌<◌, ◌≡◌, refl, true, false, some, List, [], ◌∷◌, map, length, replicate,
  Bytes, codes, has_prefix, pos, is_negative, arith, All,
}
use strero.RtspServer.{Client, client_state_playing, codec_h264, transport_udp}
use strero.RtspServer.Rtp.{Sending, skip_start_code}
use strero.RtspServer.Rtp.Dispatch.{send_rtp_packet}
use strero.RtspServer.Rtp.Fragments.{transmit}
use strero.RtspServer.Rtp.Refinement.{rtp_packets, outcome, send_rtp_packet-transmit}
use strero.RtspServer.Rtp.Receiver.{has_marker, receive}
use strero.RtspServer.Rtp.Delivery.{recording, send_rtp_packet-receive}
use strero.RtspServer.Rtp.Bounds.{FitsPacket, on_last, send_rtp_packet-FitsPacket}

abbrev viewer : Client
viewer = record {
  socket_fd = pos 7;
  client_addr = record { host = 3232235777; port = 40000 };
  state = client_state_playing;
  session_id = codes "4Q7";
  cseq = pos 4;
  rtp_addr = record { host = 3232235777; port = 50000 };
  rtp_port = pos 50000;
  rtcp_port = pos 50001;
  rtp_socket_fd = pos 9;
  rtp_seq = 65535;
  rtp_ssrc = 305419896;
  video_channel = pos 0;
  codec = codec_h264;
  transport_mode = transport_udp;
  request_buffer = [];
  last_activity_us = 1000;
  active = true;
  needs_idr = false;
  idr_wait_start_us = 0;
  supports_backchannel = false;
  use_tls = false;
}

-- An IDR slice of 2,501 bytes, which takes three packets.
abbrev idr_slice : Bytes
idr_slice = 101 ∷ replicate 2500 7

length-replicate : (n a : ℕ) → length (replicate n a) ≡ n
length-replicate zero a = refl
length-replicate (suc n) a = omega (arith, length-replicate n a)

idr_slice_bare : skip_start_code idr_slice ≡ idr_slice
unfolding skip_start_code has_prefix
idr_slice_bare = refl

long_enough : 1 < length idr_slice
long_enough = omega (arith, length-replicate 2500 7)

short_enough : length idr_slice ≤ 307200
short_enough = omega (arith, length-replicate 2500 7)

send_rtp_packet-transmit_example :
    Option.map outcome (send_rtp_packet recording viewer idr_slice 90000 true [])
    ≡ some (
        outcome (
          transmit recording codec_h264
            (rtp_packets codec_h264 viewer idr_slice 90000 true)
            0
            viewer
            []))
send_rtp_packet-transmit_example =
    send_rtp_packet-transmit recording viewer idr_slice 90000 true [] refl refl refl idr_slice_bare
      long_enough short_enough

send_rtp_packet-receive_example :
    (sent : Sending (List Bytes)) × (send_rtp_packet recording viewer idr_slice 90000 true []
      ≡ some sent)
    × (is_negative sent.0 ≡ false)
    × (receive codec_h264 65535 sent.2 ≡ some idr_slice)
send_rtp_packet-receive_example =
    send_rtp_packet-receive viewer idr_slice 90000 true refl refl refl (omega arith) idr_slice_bare
      (omega arith, omega arith, omega arith) long_enough short_enough

send_rtp_packet-FitsPacket_example :
    (sent : Sending (List Bytes)) × (send_rtp_packet recording viewer idr_slice 90000 true []
      ≡ some sent)
    × All FitsPacket sent.2
    × (map has_marker sent.2 ≡ on_last true sent.2)
send_rtp_packet-FitsPacket_example =
    send_rtp_packet-FitsPacket viewer idr_slice 90000 true refl refl refl idr_slice_bare long_enough
      short_enough
