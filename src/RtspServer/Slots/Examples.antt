-- ===== src/RtspServer/Slots/Examples.antt =====
-- The server thread of src/modules/rtsp/rtsp_server.c with one client, and requests of it.
use Prim.Native.String.{String}
use mathlib.Core.Option
use strero.Prelude.{
  ◌≡◌, refl, ap, Bool, true, false, Option, none, some, List, [], ◌∷◌, ◌++◌, ◌⊎◌, codes, c_string,
  find_str, has_prefix, str_eq, ℤ, pos,
}
use strero.Auth.Check.{
  auth_get_client_info, auth_is_localhost, auth_is_required, auth_check_http_request,
  auth_check_rtsp_request,
}
use strero.Auth.Basic.{crlf}
use strero.RtspServer.{
  Client, client_state_playing, codec_h264, transport_udp, method_teardown, Stream, Server,
}
use strero.RtspServer.Text.{
  skip_spaces, word, scan_word, digits, scan_unsigned, scan_signed, scan_int,
}
use strero.RtspServer.Messages.{Request, method_of, cseq_of, parse_rtsp_request}
use strero.RtspServer.Responses.{Response, status_ok}
use strero.RtspServer.Session.{Outside, Handled, decrement, respond, send_rtsp_response}
use strero.RtspServer.Session.Connection.{
  handle_pause_request, from_teardown, dispatch, authenticated, answer_request, auth_result_of,
  handle_request, handle_bytes, handle_client_connection, cleanup_client,
}
use strero.RtspServer.Session.States.{before, after}
use strero.RtspServer.Session.Access.{request_of, IsAllowedMove, handle_client_connection-Moves}
use strero.RtspServer.Slots.{
  hold_media, resume_media, drop_client, finish_request, serve_client, serve_clients, accept_if,
  idle, busy, is_expired, sweep_clients, server_round,
}
use strero.RtspServer.Slots.Counting.{active_count, IsCounted}
use strero.RtspServer.Slots.Rounds.{server_round-IsCounted}
use strero.RtspServer.Slots.Teardown.{IsTeardown, serve_client_teardown}

abbrev player : Client
player = record {
  socket_fd = pos 7;
  client_addr = record { host = 167772162; port = 40000 };
  state = client_state_playing;
  session_id = codes "4Q7";
  cseq = pos 4;
  rtp_addr = record { host = 167772162; port = 50000 };
  rtp_port = pos 50000;
  rtcp_port = pos 50001;
  rtp_socket_fd = pos 9;
  rtp_seq = 65535;
  rtp_ssrc = 305419896;
  video_channel = pos 0;
  codec = codec_h264;
  transport_mode = transport_udp;
  request_buffer = [];
  last_activity_us = 1000;
  active = true;
  needs_idr = false;
  idr_wait_start_us = 0;
  supports_backchannel = false;
  use_tls = false;
}

abbrev main_stream : Stream
main_stream = record {
  channel = pos 0;
  codec = codec_h264;
  width = 1920;
  height = 1080;
  fps = 25;
  stream_name = codes "ch0";
  stream_info = [];
}

abbrev camera : Server
camera = record {
  clients = player ∷ [];
  client_count = pos 1;
  streams = main_stream ∷ [];
  port = pos 554;
  server_ip = codes "10.0.0.1";
  max_clients = pos 8;
  session_timeout = 60;
  auth = record { enabled = false; localhost_bypass = true; username = []; password = [] };
  total_connections = 1;
}

-- A request on a connection that works, and whether its response can be written.
abbrev asks : String → Bool → Outside
asks method can_write = record {
  received =
      codes method
      ++ codes " rtsp://10.0.0.1/ch0 RTSP/1.0"
      ++ crlf
      ++ codes "CSeq: 12"
      ++ crlf
      ++ crlf;
  peer = some 167772162;
  ip_printed = true;
  response_written = can_write;
  now_us = 2000;
  now_s = 0;
  random_seq = 5;
  random_ssrc = 6;
  udp_socket = pos 10;
}

abbrev noted : Client
noted = record player { last_activity_us = 2000; cseq = pos 12 }

paused :
    handle_client_connection (asks "PAUSE" true) camera player (pos 1)
    ≡ some (handle_pause_request (asks "PAUSE" true) noted (pos 1))
unfolding handle_client_connection handle_bytes handle_request answer_request authenticated dispatch
    from_teardown parse_rtsp_request method_of cseq_of scan_word word skip_spaces scan_int
    scan_signed scan_unsigned digits auth_result_of auth_get_client_info auth_is_localhost
    auth_is_required auth_check_http_request auth_check_rtsp_request find_str has_prefix str_eq
    c_string
paused = refl

handle_client_connection-Moves_example :
    (after (handle_pause_request (asks "PAUSE" true) noted (pos 1)) ≡ before player (pos 1))
    ⊎ IsAllowedMove
        (asks "PAUSE" true)
        camera
        player
        (pos 1)
        (request_of (asks "PAUSE" true) player)
        (handle_pause_request (asks "PAUSE" true) noted (pos 1))
handle_client_connection-Moves_example =
    handle_client_connection-Moves (asks "PAUSE" true) camera player (pos 1)
      (handle_pause_request (asks "PAUSE" true) noted (pos 1)) paused

-- After a PAUSE that was answered with 200 the session plays on.
abbrev resumed : Client × ℤ
resumed = finish_request true (handle_pause_request (asks "PAUSE" true) noted (pos 1))

resumed_plays : resumed.0.state ≡ client_state_playing
unfolding finish_request resume_media drop_client handle_pause_request respond send_rtsp_response
resumed_plays = refl

paused_ok :
    Option.map
      (λ (r : Response). r.status)
      (handle_pause_request (asks "PAUSE" true) noted (pos 1)).response
    ≡ some status_ok
unfolding handle_pause_request respond send_rtsp_response
paused_ok = refl

abbrev teardown : Request
teardown = record { method = method_teardown; url = codes "rtsp://10.0.0.1/ch0"; cseq = pos 12 }

teardown_comes_in : IsTeardown (asks "TEARDOWN" false) camera player teardown
unfolding from_teardown parse_rtsp_request method_of cseq_of scan_word word skip_spaces scan_int
    scan_signed scan_unsigned digits auth_result_of auth_get_client_info auth_is_localhost
    auth_is_required auth_check_http_request auth_check_rtsp_request find_str has_prefix str_eq
    c_string
teardown_comes_in = (refl, refl, refl, refl, refl)

-- The one client is counted out twice: -1 clients are left.
serve_client_teardown_example :
    (served : Client × ℤ) × (serve_client (asks "TEARDOWN" false) camera player (pos 1)
      ≡ some served)
    × (served.0.active ≡ false)
    × (served.1 ≡ decrement (decrement (pos 1)))
serve_client_teardown_example =
    serve_client_teardown (asks "TEARDOWN" false) camera player (pos 1) teardown teardown_comes_in

abbrev next_camera : Server
next_camera = record camera { clients = resumed.0 ∷ []; client_count = resumed.1 }

round_paused :
    server_round (busy none none (some (asks "PAUSE" true) ∷ [])) camera ≡ some next_camera
unfolding server_round serve_clients accept_if serve_client hold_media Option.bind
round_paused =
    ap
      (λ (o : Option Handled).
        Option.map (λ (r : List Client × ℤ). record camera { clients = r.0; client_count = r.1 })
          (Option.bind (Option.map (finish_request true) o)
            (λ (served : Client × ℤ). some (served.0 ∷ [], served.1))))
      paused

one_client : IsCounted camera
unfolding active_count
one_client = refl

server_round-IsCounted_example : IsCounted next_camera
server_round-IsCounted_example =
    server_round-IsCounted (busy none none (some (asks "PAUSE" true) ∷ [])) camera next_camera
      (tt, tt, (refl, tt)) one_client round_paused

-- After 61 idle seconds the client leaves.
timed_out :
    server_round (idle 61001001) camera
    ≡ some (record camera { clients = cleanup_client player ∷ []; client_count = pos 0 })
unfolding server_round sweep_clients is_expired decrement
timed_out = refl
