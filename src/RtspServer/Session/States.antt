-- ===== src/RtspServer/Session/States.antt =====
-- The states of a session under `handle_client_connection` of src/modules/rtsp/rtsp_server.c.
use strero.Prelude.{
  ◌≡◌, refl, sym, subst, Bool, true, false, Option-cases, Bool-cases, ◌⊎◌, inl, inr, Bytes, ℤ,
  arith,
}
use strero.RtspServer.{
  Client, ClientState, client_state_init, client_state_ready, client_state_playing,
  client_state_paused, RtspMethod, method_unknown, method_options, method_describe, method_setup,
  method_play, method_pause, method_teardown, method_get_parameter, method_set_parameter, Server,
  Stream, is_playing,
}
use strero.RtspServer.Messages.{
  transport_of, extract_stream_name_from_url, find_stream, split_track,
}
use strero.RtspServer.Session.{
  Outside, Handled, decrement, send_rtsp_response, respond, handle_options_request,
  handle_describe_request, setup_done, setup_tcp, setup_udp_ports, setup_udp, setup_stream,
  handle_setup_request,
}
use strero.RtspServer.Session.Connection.{
  can_play, wait_for_idr, handle_play_request, handle_pause_request, cleanup_client,
  handle_teardown_request, dispatch,
}

-- The state of a session, whether its slot is taken, and the server's count of clients.
abbrev pub Situation : Type 0
Situation = ClientState × Bool × ℤ

abbrev pub before : Client → ℤ → Situation
before client count = (client.state, client.active, count)

abbrev pub after : Handled → Situation
after handled = (handled.client.state, handled.client.active, handled.client_count)

-- The moves of a session: the method, and the situation before and after.
pub data Moves : RtspMethod → Situation → Situation → Type 0 where
  moves_setup :
      {s : ClientState} {active : Bool} {count : ℤ}
      → Moves method_setup (s, active, count) (client_state_ready, active, count)
  moves_play :
      {s : ClientState} {active : Bool} {count : ℤ}
      → can_play s ≡ true
      → Moves method_play (s, active, count) (client_state_playing, active, count)
  moves_pause :
      {active : Bool} {count : ℤ}
      → Moves method_pause (client_state_playing, active, count) (client_state_ready, active, count)
  moves_teardown :
      {s : ClientState} {active : Bool} {count : ℤ}
      → Moves method_teardown (s, active, count) (client_state_init, false, decrement count)

abbrev Stays : Client → ℤ → Handled → Type 0
Stays client count handled = after handled ≡ before client count

abbrev ready : Client → ℤ → Situation
ready client count = (client_state_ready, client.active, count)

-- A handler that leaves the situation, or sets the state to READY.
abbrev StaysOrReady : Client → ℤ → Handled → Type 0
StaysOrReady client count handled =
    (after handled ≡ before client count) ⊎ (after handled ≡ ready client count)

describe-Stays :
    (outside : Outside) (server : Server) (client : Client) (count : ℤ) (url : Bytes)
    → Stays client count (handle_describe_request outside server client count url)
unfolding handle_describe_request respond send_rtsp_response
describe-Stays outside server client count url = ground arith

setup_done-Ready :
    (outside : Outside) (client : Client) (count : ℤ) (headers : Bytes)
    → after (setup_done outside client count headers) ≡ ready client count
unfolding setup_done send_rtsp_response
setup_done-Ready outside client count headers = refl

setup_tcp-Ready :
    (outside : Outside) (client : Client) (count : ℤ) (transport : Bytes)
    → after (setup_tcp outside client count transport) ≡ ready client count
unfolding setup_tcp
setup_tcp-Ready outside client count transport = setup_done-Ready outside _ count _

setup_udp_ports-StaysOrReady :
    (outside : Outside) (client : Client) (count : ℤ) (ports : ℤ × ℤ)
    → StaysOrReady client count (setup_udp_ports outside client count ports)
unfolding setup_udp_ports setup_done respond send_rtsp_response
setup_udp_ports-StaysOrReady outside client count ports = ground arith

setup_udp-StaysOrReady :
    (outside : Outside) (client : Client) (count : ℤ) (transport : Bytes)
    → StaysOrReady client count (setup_udp outside client count transport)
unfolding setup_udp setup_udp_ports setup_done respond send_rtsp_response
setup_udp-StaysOrReady outside client count transport = ground arith

setup_stream-StaysOrReady :
    (outside : Outside) (client : Client) (count : ℤ) (transport : Bytes) (track_id : ℤ)
    (is_backchannel : Bool) (stream : Stream)
    → StaysOrReady client count
        (setup_stream outside client count transport track_id is_backchannel stream)
unfolding setup_stream respond send_rtsp_response
setup_stream-StaysOrReady outside client count transport track_id is_backchannel stream = ground (
  arith,
  setup_tcp-Ready outside client count transport,
  setup_udp-StaysOrReady outside client count transport,
  setup_tcp-Ready outside (record client { video_channel = stream.channel; codec = stream.codec })
      count transport,
  setup_udp-StaysOrReady outside
      (record client { video_channel = stream.channel; codec = stream.codec }) count transport,
)

setup-StaysOrReady :
    (outside : Outside) (server : Server) (client : Client) (count : ℤ) (url transport : Bytes)
    → StaysOrReady client count (handle_setup_request outside server client count url transport)
unfolding handle_setup_request respond send_rtsp_response
setup-StaysOrReady outside server client count url transport =
    elim (Option-cases (extract_stream_name_from_url server.streams url)) [
      | inl unknown ↦ rw (handle_setup_request, unknown) (inl refl)
      | inr (name, known) ↦
          rw (handle_setup_request, known)
            (elim (Option-cases (find_stream (split_track name).1 server.streams)) [
              | inl missing ↦ rw missing (inl refl)
              | inr (stream, found) ↦
                  rw found (setup_stream-StaysOrReady outside client count _ _ _ _)
            ])
    ]

wait_for_idr-after :
    (outside : Outside) (handled : Handled) → after (wait_for_idr outside handled) ≡ after handled
unfolding wait_for_idr
wait_for_idr-after outside handled = ground arith

play-Moves :
    (outside : Outside) (client : Client) (count : ℤ)
    → (Stays client count (handle_play_request outside client count))
      ⊎ Moves method_play (before client count) (after (handle_play_request outside client count))
unfolding handle_play_request respond send_rtsp_response
play-Moves outside client count = elim (Bool-cases (can_play client.state)) [
  | inl ok ↦ rw ok (
      inr (
        subst (Moves method_play (before client count)) (sym (wait_for_idr-after outside _))
          (moves_play ok)))
  | inr refused ↦ rw refused (inl refl)
]

is_playing_lem : (s : ClientState) → is_playing s ≡ true → s ≡ client_state_playing
is_playing_lem client_state_init h = cc
is_playing_lem client_state_ready h = cc
is_playing_lem client_state_playing h = refl
is_playing_lem client_state_paused h = cc

pause-Moves :
    (outside : Outside) (client : Client) (count : ℤ)
    → (Stays client count (handle_pause_request outside client count))
      ⊎ Moves method_pause (before client count) (after (handle_pause_request outside client count))
unfolding handle_pause_request respond send_rtsp_response
pause-Moves outside client count = elim (Bool-cases (is_playing client.state)) [
  | inl plays ↦ rw plays (
      inr (
        subst
          (λ (s : ClientState). Moves method_pause (s, client.active, count) (ready client count))
          (sym (is_playing_lem client.state plays)) moves_pause))
  | inr refused ↦ rw refused (inl refl)
]

pub dispatch-Moves :
    (outside : Outside) (server : Server) (client : Client) (count : ℤ) (request : Bytes)
    (method : RtspMethod) (url : Bytes)
    → (Stays client count (dispatch outside server client count request method url))
      ⊎ Moves method
          (before client count)
          (after (dispatch outside server client count request method url))
unfolding dispatch handle_options_request handle_teardown_request cleanup_client respond
    send_rtsp_response
dispatch-Moves outside server client count request method_options url = inl refl
dispatch-Moves outside server client count request method_describe url =
    inl (describe-Stays outside server client count url)
dispatch-Moves outside server client count request method_setup url =
    elim (setup-StaysOrReady outside server client count url (transport_of request)) [
      | inl same ↦ inl same
      | inr ready ↦ inr (subst (Moves method_setup (before client count)) (sym ready) moves_setup)
    ]
dispatch-Moves outside server client count request method_play url = play-Moves outside client count
dispatch-Moves outside server client count request method_pause url =
    pause-Moves outside client count
dispatch-Moves outside server client count request method_teardown url = inr moves_teardown
dispatch-Moves outside server client count request method_unknown url = inl refl
dispatch-Moves outside server client count request method_get_parameter url = inl refl
dispatch-Moves outside server client count request method_set_parameter url = inl refl
