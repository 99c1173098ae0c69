-- ===== src/RtspServer/Session/Connection.antt =====
-- `handle_client_connection` of src/modules/rtsp/rtsp_server.c, with the handlers of PLAY, PAUSE
-- and TEARDOWN and `cleanup_client`.
use mathlib.Core.Option
use strero.Prelude.{
  ℕ, ◌%◌, Bool, true, false, not, ◌&&◌, ◌||◌, Option, none, some, [], ◌++◌, ◌==◌, if◌then◌else◌,
  length, Bytes, codes, c_string, find_str, has_prefix, occurs, ℤ, pos, negsuc, minus_one, is_zero,
  is_negative,
}
use strero.Auth.Basic.{AuthResult, success, required, invalid, error}
use strero.Auth.Check.{ClientInfo, auth_get_client_info, auth_check_rtsp_request}
use strero.Auth.Basic.{crlf}
use strero.RtspServer.{
  Client, ClientState, client_state_init, client_state_ready, client_state_playing,
  client_state_paused, TransportMode, transport_udp, transport_tcp, RtspMethod, method_options,
  method_describe, method_setup, method_play, method_pause, method_teardown, Server, is_below,
  is_playing,
}
use strero.RtspServer.Messages.{Request, parse_rtsp_request, transport_of}
use strero.RtspServer.Responses.{
  status_ok, status_bad_request, status_unauthorized, status_method_not_allowed,
  status_internal_error,
}
use strero.RtspServer.Session.{
  Outside, Handled, decrement, return_with, send_rtsp_response, respond, handle_options_request,
  handle_describe_request, handle_setup_request,
}

abbrev pub can_play : ClientState → Bool
can_play client_state_init = false
can_play client_state_ready = true
can_play client_state_playing = true
can_play client_state_paused = false

-- A client that begins to play waits for an IDR frame, on a channel that has one of the streams.
unfoldable pub wait_for_idr : Outside → Handled → Handled
wait_for_idr outside handled =
    if is_zero handled.result && is_below handled.client.video_channel 2
    then record handled {
      client = record handled.client { needs_idr = true; idr_wait_start_us = outside.now_us };
      idr_request = some handled.client.video_channel;
    }
    else handled

abbrev pub notice_backchannel : Client → Client
notice_backchannel client = record client {
  supports_backchannel =
      client.supports_backchannel
      || occurs (codes "Require: www.onvif.org/ver20/backchannel") client.request_buffer;
}

unfoldable pub handle_play_request : Outside → Client → ℤ → Handled
handle_play_request outside client0 count =
    let client = notice_backchannel client0 in
    if not (can_play client.state)
    then respond outside client count status_bad_request
    else wait_for_idr outside (
        send_rtsp_response outside
          (record client {
            state = client_state_playing;
            rtp_seq = outside.random_seq % 65536;
            rtp_ssrc = outside.random_ssrc % 4294967296;
          })
          count status_ok (codes "Range: npt=0.000-" ++ crlf) none)

unfoldable pub handle_pause_request : Outside → Client → ℤ → Handled
handle_pause_request outside client count =
    if not (is_playing client.state)
    then respond outside client count status_bad_request
    else respond outside (record client { state = client_state_ready }) count status_ok

-- The sockets are closed, and the slot is free.
unfoldable pub cleanup_client : Client → Client
cleanup_client client = record client {
  socket_fd = if is_negative client.socket_fd then client.socket_fd else minus_one;
  rtp_socket_fd = if is_negative client.rtp_socket_fd then client.rtp_socket_fd else minus_one;
  active = false;
  state = client_state_init;
  session_id = [];
}

unfoldable pub handle_teardown_request : Outside → Client → ℤ → Handled
handle_teardown_request outside client count =
    let handled = respond outside (record client { state = client_state_init }) count status_ok in
    record handled { client = cleanup_client handled.client; client_count = decrement count }

-- Whether the TCP stream of the client holds "TEARDOWN", from where on it is read then.
unfoldable pub from_teardown : TransportMode → Bytes → Bytes
from_teardown transport_udp received = received
from_teardown transport_tcp received = elim (find_str (codes "TEARDOWN") received) [
  | none ↦ received
  | some (_, at) ↦ at
]

abbrev pub is_teardown : RtspMethod → Bool
is_teardown method_teardown = true
is_teardown _ = false

-- The switch over the method.
unfoldable pub dispatch : Outside → Server → Client → ℤ → Bytes → RtspMethod → Bytes → Handled
dispatch outside server client count request method_options url =
    handle_options_request outside client count
dispatch outside server client count request method_describe url =
    handle_describe_request outside server client count url
dispatch outside server client count request method_setup url =
    handle_setup_request outside server client count url (transport_of request)
dispatch outside server client count request method_play url =
    handle_play_request outside client count
dispatch outside server client count request method_pause url =
    handle_pause_request outside client count
dispatch outside server client count request method_teardown url =
    handle_teardown_request outside client count
dispatch outside server client count request _ url =
    respond outside client count status_method_not_allowed

-- The answer to a request whose authentication has the given result.
unfoldable pub authenticated :
    Outside → Server → Client → ℤ → Bytes → Request → AuthResult → Handled
authenticated outside server client count request parsed success =
    dispatch outside server client count request parsed.method parsed.url
authenticated outside server client count request parsed required =
    send_rtsp_response outside client count status_unauthorized
      (codes "WWW-Authenticate: Basic realm=\"Thingino RTSP Server\"" ++ crlf) none
authenticated outside server client count request parsed invalid =
    send_rtsp_response outside client count status_unauthorized
      (codes "WWW-Authenticate: Basic realm=\"Thingino RTSP Server\"" ++ crlf) none
authenticated outside server client count request parsed error =
    respond outside client count status_internal_error

-- The authentication of a request from a known peer, or from a connection without one: only
-- TEARDOWN goes on without. `none` is a fault of `auth_check_rtsp_request`.
unfoldable pub auth_result_of :
    Server → Bytes → RtspMethod → Option ClientInfo → Option (Option AuthResult)
auth_result_of server request method none = some (if is_teardown method then some success else none)
auth_result_of server request method (some info) =
    Option.map some (auth_check_rtsp_request request server.auth info)

-- A socket as `auth_get_client_info` takes it. (On a closed one `getpeername` fails.)
abbrev pub descriptor : ℤ → ℕ
descriptor (pos n) = n
descriptor (negsuc n) = 0

-- `none` is the connection that is dropped.
unfoldable pub answer_request :
    Outside → Server → Client → ℤ → Bytes → Request → Option AuthResult → Handled
answer_request outside server client count request parsed none = return_with minus_one client count
answer_request outside server client count request parsed (some result) =
    authenticated outside server client count request parsed result

-- A request that was parsed.
unfoldable pub handle_request : Outside → Server → Client → ℤ → Bytes → Request → Option Handled
handle_request outside server client count request parsed =
    Option.map (answer_request outside server client count request parsed) (
      auth_result_of server request parsed.method
        (auth_get_client_info (descriptor client.socket_fd) outside.peer outside.ip_printed))

unfoldable pub handle_bytes : Outside → Server → Client → ℤ → Bytes → Option Handled
handle_bytes outside server client0 count received =
    let client = record client0 { last_activity_us = outside.now_us } in
    if has_prefix (codes "$") received
    then some (return_with (pos 0) client0 count)
    else elim (parse_rtsp_request (c_string received)) [
      | none ↦ some (return_with minus_one client count)
      | some parsed ↦
          handle_request outside server (record client { cseq = parsed.cseq }) count
            (c_string received) parsed
    ]

-- The request of a client, with the server's count of clients; `none` is a fault.
unfoldable pub handle_client_connection : Outside → Server → Client → ℤ → Option Handled
handle_client_connection outside server client count =
    if length outside.received == 0
    then some (return_with minus_one client count)
    else handle_bytes outside server client count
        (from_teardown client.transport_mode outside.received)
