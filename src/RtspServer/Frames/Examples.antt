-- ===== src/RtspServer/Frames/Examples.antt =====
-- Frames and the clock of src/modules/rtsp/rtsp_server.c at concrete inputs.
use mathlib.Core.Option
use strero.Prelude.{
  ℕ, ◌+◌, ◌-◌, ◌*◌, ◌%◌, ◌≤◌, ◌≡◌, refl, inr, true, false, some, List, [], ◌∷◌, Bytes, has_prefix,
  codes, pos, arith,
}
use strero.RtspServer.{Client, Server, client_state_playing, codec_h264, transport_udp}
use strero.RtspServer.Rtp.{rtp_header, next_seq, skip_start_code, single_result, deliver_udp}
use strero.RtspServer.Rtp.Dispatch.{send_packet, send_small, send_rtp_packet}
use strero.RtspServer.Rtp.Delivery.{recording}
use strero.RtspServer.Frames.{
  scan_width, scan_starts, units, server_units, send_units, send_frame_to_client, is_idr_unit,
  is_parameter_set, any_unit, gate_of, waited_long, watches, same_channel,
}
use strero.RtspServer.Frames.AnnexB.{frame_of}
use strero.RtspServer.Frames.Arrival.{flatten, Carries, send_frame_to_client-Carries}
use strero.RtspServer.Frames.Waiting.{rtsp_server_send_frame-IsWaiting}
use strero.RtspServer.Frames.Broadcast.{
  Clock, ticked, calculate_monotonic_rtp_timestamp, send_to_client, send_to_clients,
  rtsp_server_send_frame, base_timestamp-ticked,
}

abbrev watcher : Client
watcher = record {
  socket_fd = pos 7;
  client_addr = record { host = 167772162; port = 40000 };
  state = client_state_playing;
  session_id = codes "4Q7";
  cseq = pos 4;
  rtp_addr = record { host = 167772162; port = 50000 };
  rtp_port = pos 50000;
  rtcp_port = pos 50001;
  rtp_socket_fd = pos 9;
  rtp_seq = 65535;
  rtp_ssrc = 1;
  video_channel = pos 0;
  codec = codec_h264;
  transport_mode = transport_udp;
  request_buffer = [];
  last_activity_us = 1000;
  active = true;
  needs_idr = true;
  idr_wait_start_us = 0;
  supports_backchannel = false;
  use_tls = false;
}

-- SPS, PPS and an IDR slice.
abbrev three_units : List Bytes
three_units = (103 ∷ 66 ∷ []) ∷ (104 ∷ 206 ∷ []) ∷ (101 ∷ 136 ∷ 132 ∷ []) ∷ []

bare_sps : skip_start_code (103 ∷ 66 ∷ []) ≡ 103 ∷ 66 ∷ []
unfolding skip_start_code has_prefix
bare_sps = refl

bare_pps : skip_start_code (104 ∷ 206 ∷ []) ≡ 104 ∷ 206 ∷ []
unfolding skip_start_code has_prefix
bare_pps = refl

bare_slice : skip_start_code (101 ∷ 136 ∷ 132 ∷ []) ≡ 101 ∷ 136 ∷ 132 ∷ []
unfolding skip_start_code has_prefix
bare_slice = refl

send_frame_to_client-Carries_example :
    (sent : Client × List Bytes) × (groups : List (List Bytes)) × (send_frame_to_client recording
        90000 watcher
        (frame_of three_units)
        []
      ≡ some sent)
    × (sent.1 ≡ flatten groups)
    × Carries codec_h264 65535 groups three_units
send_frame_to_client-Carries_example =
    send_frame_to_client-Carries 90000 watcher three_units (refl, refl, refl, omega arith)
      (omega arith) (omega arith)
      (
        omega arith,
        (refl, (refl, tt)),
        (omega arith, (refl, (refl, tt)), (omega arith, (refl, (refl, (refl, tt))), tt)),
      )
      (
        (bare_sps, (omega arith, omega arith, omega arith), omega arith, omega arith),
        (
          (bare_pps, (omega arith, omega arith, omega arith), omega arith, omega arith),
          ((bare_slice, (omega arith, omega arith, omega arith), omega arith, omega arith), tt),
        ),
      )

three_packets :
    Option.map
      (λ (r : Client × List Bytes). r.1)
      (send_units recording 90000 three_units watcher [])
    ≡ some (
        (128 ∷ 96 ∷ 255 ∷ 255 ∷ 0 ∷ 1 ∷ 95 ∷ 144 ∷ 0 ∷ 0 ∷ 0 ∷ 1 ∷ 103 ∷ 66 ∷ [])
        ∷ (128 ∷ 96 ∷ 0 ∷ 0 ∷ 0 ∷ 1 ∷ 95 ∷ 144 ∷ 0 ∷ 0 ∷ 0 ∷ 1 ∷ 104 ∷ 206 ∷ [])
        ∷ (128 ∷ 224 ∷ 0 ∷ 1 ∷ 0 ∷ 1 ∷ 95 ∷ 144 ∷ 0 ∷ 0 ∷ 0 ∷ 1 ∷ 101 ∷ 136 ∷ 132 ∷ [])
        ∷ [])
unfolding send_units send_rtp_packet send_small send_packet rtp_header next_seq single_result
    deliver_udp Option.bind
three_packets = refl

abbrev clock : Clock
clock = record { last_frame_time = 1000000; base_timestamp = 4294967290; initialized = true }

base_timestamp-ticked_example :
    (ticks : ℕ) × ((ticked (1040000 ∷ 1040015 ∷ []) clock).base_timestamp
      ≡ (4294967290 + ticks) % 4294967296)
    × (ticks * 100 ≤ 9 * (1040015 - 1000000))
    × (9 * (1040015 - 1000000) ≤ ticks * 100 + 99 * 2)
base_timestamp-ticked_example =
    base_timestamp-ticked (1040000 ∷ 1040015 ∷ []) clock refl (omega arith)
      (omega arith, (omega arith, tt))

three_thousand_six_hundred : (ticked (1040000 ∷ 1040015 ∷ []) clock).base_timestamp ≡ 3595
unfolding ticked calculate_monotonic_rtp_timestamp
three_thousand_six_hundred = refl

-- The IDR frame ends the wait of the client.
let_in :
    gate_of
      (any_unit (is_idr_unit codec_h264) three_units)
      (any_unit (is_parameter_set codec_h264) three_units)
      2000
      watcher
    ≡ record { gets_frame = true; needs_idr = false }
unfolding gate_of any_unit is_idr_unit is_parameter_set waited_long
let_in = refl

abbrev reading : ℕ × ℕ
reading = (1040000, 0)

abbrev camera : Server
camera = record {
  clients = watcher ∷ [];
  client_count = pos 1;
  streams = [];
  port = pos 554;
  server_ip = [];
  max_clients = pos 8;
  session_timeout = 60;
  auth = record { enabled = false; localhost_bypass = true; username = []; password = [] };
  total_connections = 1;
}

-- A frame without an IDR slice or a parameter set is not for a client that waits.
slice_waits :
    Option.map
      (λ (r : Server × Clock × List Bytes). r.2)
      (rtsp_server_send_frame recording true codec_h264
        (pos 0)
        2000
        reading
        (reading ∷ [])
        (frame_of ((65 ∷ 154 ∷ []) ∷ []))
        camera
        clock
        [])
    ≡ some []
unfolding rtsp_server_send_frame send_to_clients send_to_client watches same_channel gate_of
    any_unit is_idr_unit is_parameter_set waited_long server_units units scan_starts scan_width
    calculate_monotonic_rtp_timestamp Option.bind
slice_waits = refl

abbrev slice : Bytes
slice = frame_of ((65 ∷ 154 ∷ []) ∷ [])

no_idr_slice : any_unit (is_idr_unit codec_h264) (server_units slice) ≡ false
unfolding any_unit is_idr_unit server_units units scan_starts scan_width
no_idr_slice = refl

no_parameter_set : any_unit (is_parameter_set codec_h264) (server_units slice) ≡ false
unfolding any_unit is_parameter_set server_units units scan_starts scan_width
no_parameter_set = refl

waits_briefly : waited_long 2000 watcher ≡ false
unfolding waited_long
waits_briefly = refl

rtsp_server_send_frame-IsWaiting_example :
    rtsp_server_send_frame recording true codec_h264
      (pos 0)
      2000
      reading
      (reading ∷ [])
      slice
      camera
      clock
      []
    ≡ some (camera, (calculate_monotonic_rtp_timestamp 1040000 0 clock).1, [])
rtsp_server_send_frame-IsWaiting_example =
    rtsp_server_send_frame-IsWaiting recording true codec_h264 (pos 0) 2000 reading (reading ∷ [])
      slice camera clock [] no_idr_slice no_parameter_set (inr (refl, waits_briefly), tt)
