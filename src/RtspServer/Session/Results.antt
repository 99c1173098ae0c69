-- ===== src/RtspServer/Session/Results.antt =====
-- The results of the handlers of src/modules/rtsp/rtsp_server.c: they are those of
-- `send_rtsp_response`.
use strero.Prelude.{
  ◌≡◌, refl, subst, Bool, Option, none, some, Option-cases, Bool-cases, map-some_inv, ◌⊎◌, inl, inr,
  Bytes, codes, c_string, has_prefix, if◌then◌else◌, length, ◌==◌, ℤ, pos, arith, minus_one,
}
use strero.Auth.Basic.{AuthResult, success, required, invalid, error}
use strero.RtspServer.{
  Client, RtspMethod, method_unknown, method_options, method_describe, method_setup, method_play,
  method_pause, method_teardown, method_get_parameter, method_set_parameter, Server, Stream,
  is_playing,
}
use strero.RtspServer.Messages.{
  Request, parse_rtsp_request, transport_of, extract_stream_name_from_url, find_stream, split_track,
}
use strero.RtspServer.Session.{
  Outside, Handled, return_with, send_rtsp_response, respond, handle_options_request,
  handle_describe_request, setup_done, setup_tcp, setup_udp_ports, setup_udp, setup_stream,
  handle_setup_request,
}
use strero.RtspServer.Session.Connection.{
  can_play, wait_for_idr, handle_play_request, handle_pause_request, handle_teardown_request,
  from_teardown, dispatch, authenticated, answer_request, handle_request, handle_bytes,
  handle_client_connection,
}
use strero.RtspServer.Session.States.{before, after}
use strero.RtspServer.Session.Access.{return_with-after}

-- The result is that of the response.
abbrev pub Answers : Outside → Handled → Type 0
Answers outside handled = handled.result ≡ (if outside.response_written then pos 0 else minus_one)

describe-Answers :
    (outside : Outside) (server : Server) (client : Client) (count : ℤ) (url : Bytes)
    → Answers outside (handle_describe_request outside server client count url)
unfolding handle_describe_request respond send_rtsp_response
describe-Answers outside server client count url = ground arith

setup_tcp-Answers :
    (outside : Outside) (client : Client) (count : ℤ) (transport : Bytes)
    → Answers outside (setup_tcp outside client count transport)
unfolding setup_tcp setup_done send_rtsp_response
setup_tcp-Answers outside client count transport = refl

setup_udp-Answers :
    (outside : Outside) (client : Client) (count : ℤ) (transport : Bytes)
    → Answers outside (setup_udp outside client count transport)
unfolding setup_udp setup_udp_ports setup_done respond send_rtsp_response
setup_udp-Answers outside client count transport = ground arith

setup_stream-Answers :
    (outside : Outside) (client : Client) (count : ℤ) (transport : Bytes) (track_id : ℤ)
    (is_backchannel : Bool) (stream : Stream)
    → Answers outside (setup_stream outside client count transport track_id is_backchannel stream)
unfolding setup_stream respond send_rtsp_response
setup_stream-Answers outside client count transport track_id is_backchannel stream = ground (
  arith,
  setup_tcp-Answers outside client count transport,
  setup_udp-Answers outside client count transport,
  setup_tcp-Answers outside (record client { video_channel = stream.channel; codec = stream.codec })
      count transport,
  setup_udp-Answers outside (record client { video_channel = stream.channel; codec = stream.codec })
      count transport,
)

setup-Answers :
    (outside : Outside) (server : Server) (client : Client) (count : ℤ) (url transport : Bytes)
    → Answers outside (handle_setup_request outside server client count url transport)
unfolding handle_setup_request respond send_rtsp_response
setup-Answers outside server client count url transport =
    elim (Option-cases (extract_stream_name_from_url server.streams url)) [
      | inl unknown ↦ rw (handle_setup_request, unknown) refl
      | inr (name, known) ↦
          rw (handle_setup_request, known)
            (elim (Option-cases (find_stream (split_track name).1 server.streams)) [
              | inl missing ↦ rw missing refl
              | inr (stream, found) ↦ rw found (setup_stream-Answers outside client count _ _ _ _)
            ])
    ]

wait_for_idr-result :
    (outside : Outside) (handled : Handled) → (wait_for_idr outside handled).result ≡ handled.result
unfolding wait_for_idr
wait_for_idr-result outside handled = ground arith

play-Answers :
    (outside : Outside) (client : Client) (count : ℤ)
    → Answers outside (handle_play_request outside client count)
unfolding handle_play_request respond send_rtsp_response
play-Answers outside client count = elim (Bool-cases (can_play client.state)) [
  | inl ok ↦ rw ok (wait_for_idr-result outside _)
  | inr refused ↦ rw refused refl
]

pause-Answers :
    (outside : Outside) (client : Client) (count : ℤ)
    → Answers outside (handle_pause_request outside client count)
unfolding handle_pause_request respond send_rtsp_response
pause-Answers outside client count = elim (Bool-cases (is_playing client.state)) [
  | inl plays ↦ rw plays refl
  | inr refused ↦ rw refused refl
]

dispatch-Answers :
    (outside : Outside) (server : Server) (client : Client) (count : ℤ) (request : Bytes)
    (method : RtspMethod) (url : Bytes)
    → Answers outside (dispatch outside server client count request method url)
unfolding dispatch handle_options_request handle_teardown_request respond send_rtsp_response
dispatch-Answers outside server client count request method_options url = refl
dispatch-Answers outside server client count request method_describe url =
    describe-Answers outside server client count url
dispatch-Answers outside server client count request method_setup url =
    setup-Answers outside server client count url (transport_of request)
dispatch-Answers outside server client count request method_play url =
    play-Answers outside client count
dispatch-Answers outside server client count request method_pause url =
    pause-Answers outside client count
dispatch-Answers outside server client count request method_teardown url = refl
dispatch-Answers outside server client count request method_unknown url = refl
dispatch-Answers outside server client count request method_get_parameter url = refl
dispatch-Answers outside server client count request method_set_parameter url = refl

authenticated-Answers :
    (outside : Outside) (server : Server) (client : Client) (count : ℤ) (request : Bytes)
    (parsed : Request) (result : AuthResult)
    → Answers outside (authenticated outside server client count request parsed result)
unfolding authenticated respond send_rtsp_response
authenticated-Answers outside server client count request parsed success =
    dispatch-Answers outside server client count request parsed.method parsed.url
authenticated-Answers outside server client count request parsed required = refl
authenticated-Answers outside server client count request parsed invalid = refl
authenticated-Answers outside server client count request parsed error = refl

-- A call that leaves everything as it was, or answers.
abbrev pub KeepsOrAnswers : Outside → Client → ℤ → Handled → Type 0
KeepsOrAnswers outside client count handled =
    (after handled ≡ before client count) ⊎ Answers outside handled

answer_request-KeepsOrAnswers :
    (outside : Outside) (server : Server) (client : Client) (count : ℤ) (request : Bytes)
    (parsed : Request) (result : Option AuthResult)
    → KeepsOrAnswers outside client count
        (answer_request outside server client count request parsed result)
unfolding answer_request return_with
answer_request-KeepsOrAnswers outside server client count request parsed none = inl refl
answer_request-KeepsOrAnswers outside server client count request parsed (some result) =
    inr (authenticated-Answers outside server client count request parsed result)

handle_request-KeepsOrAnswers :
    (outside : Outside) (server : Server) (client : Client) (count : ℤ) (request : Bytes)
    (parsed : Request) (handled : Handled)
    → handle_request outside server client count request parsed ≡ some handled
    → KeepsOrAnswers outside client count handled
unfolding handle_request
handle_request-KeepsOrAnswers outside server client count request parsed handled e =
    let (result, checked, same) =
      map-some_inv (answer_request outside server client count request parsed) _ handled e in
    subst (KeepsOrAnswers outside client count) same
      (answer_request-KeepsOrAnswers outside server client count request parsed result)

handle_bytes-KeepsOrAnswers :
    (outside : Outside) (server : Server) (client : Client) (count : ℤ) (received : Bytes)
    (handled : Handled)
    → handle_bytes outside server client count received ≡ some handled
    → KeepsOrAnswers outside client count handled
unfolding handle_bytes
handle_bytes-KeepsOrAnswers outside server client count received handled e =
    elim (Bool-cases (has_prefix (codes "$") received)) [
      | inl media ↦ inl (return_with-after _ client count handled (rw media at e))
      | inr text ↦ elim (Option-cases (parse_rtsp_request (c_string received))) [
        | inl bad ↦ inl (
            return_with-after minus_one (record client { last_activity_us = outside.now_us }) count
              handled (rw (handle_bytes, text, bad) at e))
        | inr (parsed, ok) ↦
            handle_request-KeepsOrAnswers outside server
              (record client { last_activity_us = outside.now_us; cseq = parsed.cseq }) count
              (c_string received) parsed handled (rw (handle_bytes, text, ok) at e)
      ]
    ]

-- A call of `handle_client_connection` leaves the state, the slot and the count as they were, or
-- its result is that of the response.
pub handle_client_connection-KeepsOrAnswers :
    (outside : Outside) (server : Server) (client : Client) (count : ℤ) (handled : Handled)
    → handle_client_connection outside server client count ≡ some handled
    → KeepsOrAnswers outside client count handled
unfolding handle_client_connection
handle_client_connection-KeepsOrAnswers outside server client count handled e =
    elim (Bool-cases (length outside.received == 0)) [
      | inl closed ↦ inl (return_with-after minus_one client count handled (rw closed at e))
      | inr readable ↦
          handle_bytes-KeepsOrAnswers outside server client count
            (from_teardown client.transport_mode outside.received) handled (rw readable at e)
    ]
