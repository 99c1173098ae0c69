-- ===== src/RtspServer/Slots/Teardown.antt =====
-- A TEARDOWN in the server thread of src/modules/rtsp/rtsp_server.c.
use mathlib.Core.Option
use strero.Prelude.{
  ◌≡◌, refl, ap, Bool, false, some, Bool-cases, inl, inr, if◌then◌else◌, length, ◌==◌, Bytes, codes,
  has_prefix, ℤ,
}
use strero.Auth.Basic.{success}
use strero.RtspServer.{
  Client, TransportMode, transport_udp, transport_tcp, RtspMethod, method_teardown, Server,
  is_playing,
}
use strero.RtspServer.Messages.{Request, parse_rtsp_request}
use strero.RtspServer.Session.{Outside, decrement, respond, send_rtsp_response}
use strero.RtspServer.Session.Connection.{
  cleanup_client, handle_teardown_request, from_teardown, dispatch, authenticated, answer_request,
  handle_request, handle_bytes, handle_client_connection,
}
use strero.RtspServer.Session.Access.{request_of, auth_of}
use strero.RtspServer.Slots.{hold_media, resume_media, drop_client, finish_request, serve_client}

-- The request of a client is a TEARDOWN that is let in.
abbrev pub IsTeardown : Outside → Server → Client → Request → Type 0
IsTeardown outside server client parsed =
    ((length outside.received == 0) ≡ false)
    × (has_prefix (codes "$") (from_teardown client.transport_mode outside.received) ≡ false)
    × (parse_rtsp_request (request_of outside client) ≡ some parsed)
    × (parsed.method ≡ method_teardown)
    × (auth_of outside server client (request_of outside client) parsed ≡ some (some success))

dispatch_teardown :
    (outside : Outside) (server : Server) (client : Client) (count : ℤ) (request : Bytes)
    (method : RtspMethod) (url : Bytes)
    → method ≡ method_teardown
    → dispatch outside server client count request method url
      ≡ handle_teardown_request outside client count
unfolding dispatch
dispatch_teardown outside server client count request method url e =
    ap (λ m. dispatch outside server client count request m url) e

handle_teardown :
    (outside : Outside) (server : Server) (client : Client) (count : ℤ) (parsed : Request)
    → IsTeardown outside server client parsed
    → handle_client_connection outside server client count
      ≡ some (
          handle_teardown_request outside
            (record client { last_activity_us = outside.now_us; cseq = parsed.cseq })
            count)
unfolding handle_client_connection handle_bytes handle_request answer_request authenticated
handle_teardown outside server client count parsed (readable, text, ok, is_it, checked) =
    rw (readable, text, ok)
      (rw checked
        (ap some (dispatch_teardown outside server _ count _ parsed.method parsed.url is_it)))

hold_media-keeps :
    (outside : Outside) (server : Server) (mode : TransportMode) (client : Client)
    (parsed : Request)
    → IsTeardown outside server client parsed
    → IsTeardown outside server (hold_media mode client) parsed
unfolding hold_media
hold_media-keeps outside server transport_udp client parsed h = h
hold_media-keeps outside server transport_tcp client parsed h =
    elim (Bool-cases (is_playing client.state)) [ inl plays ↦ rw plays h | inr other ↦ rw other h ]

-- The count after a TEARDOWN.
abbrev count_left : Outside → ℤ → ℤ
count_left outside count =
    if outside.response_written then decrement count else decrement (decrement count)

finish_teardown :
    (was_playing : Bool) (outside : Outside) (client : Client) (count : ℤ)
    → ((finish_request was_playing (handle_teardown_request outside client count)).0.active ≡ false)
      × ((finish_request was_playing (handle_teardown_request outside client count)).1
          ≡ count_left outside count)
unfolding finish_request resume_media drop_client handle_teardown_request respond send_rtsp_response
    cleanup_client
finish_teardown was_playing outside client count = elim (Bool-cases outside.response_written) [
  | inl sent ↦ rw sent (refl, refl)
  | inr lost ↦ rw lost (refl, refl)
]

-- A TEARDOWN that is let in frees the slot of its client, in every state. If the response is
-- written, the client is counted out once; if the write of the response fails, it is counted out
-- twice, by `handle_teardown_request` and again by the server thread.
pub serve_client_teardown :
    (outside : Outside) (server : Server) (client : Client) (count : ℤ) (parsed : Request)
    → IsTeardown outside server client parsed
    → (served : Client × ℤ) × (serve_client outside server client count ≡ some served)
      × (served.0.active ≡ false)
      × (served.1
          ≡ (if outside.response_written then decrement count else decrement (decrement count)))
unfolding serve_client
serve_client_teardown outside server client count parsed h =
    let held : Client = hold_media client.transport_mode client in
    let noted : Client = record held { last_activity_us = outside.now_us; cseq = parsed.cseq } in
    let finished = finish_teardown (is_playing client.state) outside noted count in
    (
      finish_request (is_playing client.state) (handle_teardown_request outside noted count),
      ap (Option.map (finish_request (is_playing client.state))) (
          handle_teardown outside server held count parsed
            (hold_media-keeps outside server client.transport_mode client parsed h)),
      finished.0,
      finished.1,
    )
