-- ===== src/RtspServer/Session.antt =====
-- The requests of a session, as src/modules/rtsp/rtsp_server.c answers them: the handlers of the
-- methods and `handle_client_connection`.
--
-- What the outside answers during one request is an argument: each of these calls is made at most
-- once. `rtsp_client_tls_cleanup`, the mutex of the TLS context, the buffer sizes of a socket and
-- the delays are left out.
pub mod Connection
pub mod States
pub mod Access
pub mod Results
use Prim.Native.String.{String}
use strero.Prelude.{
  ℕ, zero, suc, ◌+◌, ◌-◌, ◌%◌, ◌≤◌, ◌<◌, Bool, true, false, not, ◌&&◌, ◌||◌, Option, none, some,
  List, [], ◌∷◌, ◌++◌, leb, ltb, ◌==◌, if◌then◌else◌, length, Bytes, codes, c_string, find_str,
  occurs, has_prefix, ℤ, pos, negsuc, minus_one, is_negative,
}
use strero.Auth.Basic.{AuthConfig, AuthResult, success, required, invalid, error}
use strero.Auth.Check.{ClientInfo, auth_get_client_info, auth_check_rtsp_request}
use strero.Auth.Basic.{crlf}
use strero.RtspServer.{
  Client, ClientState, client_state_init, client_state_ready, client_state_playing,
  client_state_paused, TransportMode, transport_udp, transport_tcp, Address, RtspMethod,
  method_unknown, method_options, method_describe, method_setup, method_play, method_pause,
  method_teardown, Stream, Server, is_below, is_playing,
}
use strero.RtspServer.Text.{show_int}
use strero.RtspServer.Messages.{
  Request, parse_rtsp_request, extract_stream_name_from_url, find_stream, split_track, transport_of,
  port_pair,
}
use strero.RtspServer.Responses.{
  Status, status_ok, status_bad_request, status_unauthorized, status_not_found,
  status_method_not_allowed, status_internal_error, Response,
}
use strero.RtspServer.Describe.{generate_sdp}

-- What the outside answers: the bytes that were received (none, if the connection is closed or
-- broken), the peer's address, whether it could be printed, whether the response could be written,
-- the clock, two random numbers, and a new UDP socket.
pub record Outside : Type 0 where
  pub received : Bytes
  pub peer : Option ℕ
  pub ip_printed : Bool
  pub response_written : Bool
  pub now_us : ℕ
  pub now_s : ℕ
  pub random_seq : ℕ
  pub random_ssrc : ℕ
  pub udp_socket : ℤ

-- The result, the client, the server's count of clients, the response that was built, and the video
-- channel that an IDR frame was requested for.
pub record Handled : Type 0 where
  pub result : ℤ
  pub client : Client
  pub client_count : ℤ
  pub response : Option Response
  pub idr_request : Option ℤ

-- n--, of an int
unfoldable pub decrement : ℤ → ℤ
decrement (pos zero) = minus_one
decrement (pos (suc n)) = pos n
decrement (negsuc n) = negsuc (suc n)

-- A return without a response.
unfoldable pub return_with : ℤ → Client → ℤ → Handled
return_with result client count = record {
  result = result;
  client = client;
  client_count = count;
  response = none;
  idr_request = none;
}

unfoldable pub send_rtsp_response : Outside → Client → ℤ → Status → Bytes → Option Bytes → Handled
send_rtsp_response outside client count status headers body = record {
  result = if outside.response_written then pos 0 else minus_one;
  client = client;
  client_count = count;
  response = some (record {
    status = status;
    cseq = client.cseq;
    session_id = client.session_id;
    headers = headers;
    body = body;
  });
  idr_request = none;
}

unfoldable pub respond : Outside → Client → ℤ → Status → Handled
respond outside client count status = send_rtsp_response outside client count status [] none

unfoldable pub handle_options_request : Outside → Client → ℤ → Handled
handle_options_request outside client count =
    send_rtsp_response outside client count status_ok
      (codes "Public: OPTIONS, DESCRIBE, SETUP, PLAY, PAUSE, TEARDOWN" ++ crlf) none

abbrev backchannel_tag : Bytes
backchannel_tag = codes "Require: www.onvif.org/ver20/backchannel"

unfoldable pub handle_describe_request : Outside → Server → Client → ℤ → Bytes → Handled
handle_describe_request outside server client0 count url =
    let client = record client0 {
      supports_backchannel = occurs backchannel_tag client0.request_buffer;
    } in
    elim (extract_stream_name_from_url server.streams url) [
      | none ↦ respond outside client count status_not_found
      | some stream_name ↦ elim (find_stream stream_name server.streams) [
        | none ↦ respond outside client count status_not_found
        | some _ ↦
            elim (generate_sdp server outside.now_s stream_name client.supports_backchannel) [
              | none ↦ respond outside client count status_internal_error
              | some sdp ↦ send_rtsp_response outside client count status_ok [] (some sdp)
            ]
      ]
    ]

-- (uint16_t) of an int
unfoldable pub low_word : ℤ → ℕ
low_word (pos n) = n % 65536
low_word (negsuc n) = 65535 - n % 65536

unfoldable pub is_video_track : ℤ → Bool
is_video_track (pos n) = n == 0 || n == 1
is_video_track (negsuc n) = false

-- The end of SETUP: the session is ready.
unfoldable pub setup_done : Outside → Client → ℤ → Bytes → Handled
setup_done outside client count headers =
    send_rtsp_response outside (record client { state = client_state_ready }) count status_ok
      headers none

unfoldable pub transport_header : String → ℤ × ℤ → Bytes
transport_header text (low, high) =
    codes text ++ (show_int low ++ (codes "-" ++ (show_int high ++ crlf)))

unfoldable pub setup_tcp : Outside → Client → ℤ → Bytes → Handled
setup_tcp outside client count transport =
    let (low, high) : ℤ × ℤ = elim (port_pair (codes "interleaved=") transport) [
      | some channels ↦ channels
      | none ↦ (client.rtp_port, client.rtcp_port)
    ] in
    setup_done outside
      (record client { transport_mode = transport_tcp; rtp_port = low; rtcp_port = high }) count
      (transport_header "Transport: RTP/AVP/TCP;unicast;interleaved=" (low, high))

unfoldable pub setup_udp_ports : Outside → Client → ℤ → ℤ × ℤ → Handled
setup_udp_ports outside client0 count (low, high) =
    let client = record client0 {
      rtp_port = low;
      rtcp_port = high;
      rtp_addr = record { host = client0.client_addr.host; port = low_word low };
      rtp_socket_fd = outside.udp_socket;
    } in
    if is_negative outside.udp_socket
    then respond outside client count status_internal_error
    else setup_done outside client count
        (transport_header "Transport: RTP/AVP;unicast;client_port=" (low, high))

unfoldable pub setup_udp : Outside → Client → ℤ → Bytes → Handled
setup_udp outside client0 count transport =
    let client = record client0 { transport_mode = transport_udp } in
    elim (port_pair (codes "client_port=") transport) [
      | some ports ↦ setup_udp_ports outside client count ports
      | none ↦
          if client.use_tls
          then setup_udp_ports outside client count (pos 5004, pos 5005)
          else respond outside client count status_bad_request
    ]

-- What SETUP does with the stream that was found.
unfoldable pub setup_stream : Outside → Client → ℤ → Bytes → ℤ → Bool → Stream → Handled
setup_stream outside client0 count transport track_id is_backchannel stream =
    if is_backchannel && not (occurs backchannel_tag client0.request_buffer)
    then respond outside client0 count status_bad_request
    else let client =
        if is_video_track track_id
        then record client0 { video_channel = stream.channel; codec = stream.codec }
        else client0 in
      if occurs (codes "RTP/AVP/TCP") transport
      then setup_tcp outside client count transport
      else setup_udp outside client count transport

unfoldable pub handle_setup_request : Outside → Server → Client → ℤ → Bytes → Bytes → Handled
handle_setup_request outside server client count url transport =
    elim (extract_stream_name_from_url server.streams url) [
      | none ↦ respond outside client count status_not_found
      | some name ↦
          let (track_id, stream_name, is_backchannel) = split_track name in
          elim (find_stream stream_name server.streams) [
            | none ↦ respond outside client count status_not_found
            | some stream ↦
                setup_stream outside client count transport track_id is_backchannel stream
          ]
    ]
