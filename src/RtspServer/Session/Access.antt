-- ===== src/RtspServer/Session/Access.antt =====
-- What a request may do to its session, in src/modules/rtsp/rtsp_server.c: the authentication in
-- `handle_client_connection` and the moves between the states.
use strero.Prelude.{
  ◌≡◌, refl, ap, sym, subst, ◌∙◌, Option, none, some, Option-cases, map-some_inv, Bool-cases, ◌⊎◌,
  inl, inr, Bytes, codes, c_string, has_prefix, length, ◌==◌, ℤ, minus_one,
}
use strero.Auth.Basic.{AuthResult, success, required, invalid, error}
use strero.Auth.Check.{auth_get_client_info}
use strero.RtspServer.{Client, Server}
use strero.RtspServer.Messages.{Request, parse_rtsp_request}
use strero.RtspServer.Session.{Outside, Handled, return_with, send_rtsp_response, respond}
use strero.RtspServer.Session.Connection.{
  from_teardown, authenticated, answer_request, descriptor, auth_result_of, handle_request,
  handle_bytes, handle_client_connection,
}
use strero.RtspServer.Session.States.{before, after, Moves, dispatch-Moves}

abbrev pub request_of : Outside → Client → Bytes
request_of outside client = c_string (from_teardown client.transport_mode outside.received)

abbrev pub auth_of : Outside → Server → Client → Bytes → Request → Option (Option AuthResult)
auth_of outside server client request parsed =
    auth_result_of server request parsed.method
      (auth_get_client_info (descriptor client.socket_fd) outside.peer outside.ip_printed)

-- A request that passed the authentication, and the move that its method makes.
abbrev pub IsAllowedMove : Outside → Server → Client → ℤ → Bytes → Handled → Type 0
IsAllowedMove outside server client count request handled =
    (parsed : Request) × (parse_rtsp_request request ≡ some parsed)
    × (auth_of outside server client request parsed ≡ some (some success))
    × Moves parsed.method (before client count) (after handled)

authenticated-Moves :
    (outside : Outside) (server : Server) (client : Client) (count : ℤ) (request : Bytes)
    (parsed : Request) (result : AuthResult)
    → (after (authenticated outside server client count request parsed result)
        ≡ before client count)
      ⊎ ((result ≡ success)
          × Moves parsed.method
              (before client count)
              (after (authenticated outside server client count request parsed result)))
unfolding authenticated respond send_rtsp_response
authenticated-Moves outside server client count request parsed success =
    elim (dispatch-Moves outside server client count request parsed.method parsed.url) [
      | inl same ↦ inl same
      | inr moves ↦ inr (refl, moves)
    ]
authenticated-Moves outside server client count request parsed required = inl refl
authenticated-Moves outside server client count request parsed invalid = inl refl
authenticated-Moves outside server client count request parsed error = inl refl

answer_request-Moves :
    (outside : Outside) (server : Server) (client : Client) (count : ℤ) (request : Bytes)
    (parsed : Request) (result : Option AuthResult)
    → (after (answer_request outside server client count request parsed result)
        ≡ before client count)
      ⊎ ((result ≡ some success)
          × Moves parsed.method
              (before client count)
              (after (answer_request outside server client count request parsed result)))
unfolding answer_request return_with
answer_request-Moves outside server client count request parsed none = inl refl
answer_request-Moves outside server client count request parsed (some result) =
    elim (authenticated-Moves outside server client count request parsed result) [
      | inl same ↦ inl same
      | inr (ok, moves) ↦ inr (ap (λ (r : AuthResult). some r) ok, moves)
    ]

handle_request-Moves :
    (outside : Outside) (server : Server) (client : Client) (count : ℤ) (request : Bytes)
    (parsed : Request) (handled : Handled)
    → handle_request outside server client count request parsed ≡ some handled
    → (after handled ≡ before client count)
      ⊎ ((auth_of outside server client request parsed ≡ some (some success))
          × Moves parsed.method (before client count) (after handled))
unfolding handle_request
handle_request-Moves outside server client count request parsed handled e =
    let (result, checked, same) =
      map-some_inv (answer_request outside server client count request parsed)
        (auth_of outside server client request parsed) handled e in
    elim (answer_request-Moves outside server client count request parsed result) [
      | inl stays ↦ inl (ap after (sym same) ∙ stays)
      | inr (ok, moves) ↦ inr (
        checked ∙ ap (λ (r : Option AuthResult). some r) ok,
        subst (λ (h : Handled). Moves parsed.method (before client count) (after h)) same moves,
      )
    ]

-- A return without a response leaves the state.
pub return_with-after :
    (result : ℤ) (client : Client) (count : ℤ) (handled : Handled)
    → some (return_with result client count) ≡ some handled
    → after handled ≡ before client count
unfolding return_with
return_with-after result client count handled e =
    let same : return_with result client count ≡ handled = cc in ap after (sym same)

handle_bytes-Moves :
    (outside : Outside) (server : Server) (client : Client) (count : ℤ) (received : Bytes)
    (handled : Handled)
    → handle_bytes outside server client count received ≡ some handled
    → (after handled ≡ before client count)
      ⊎ IsAllowedMove outside server client count (c_string received) handled
unfolding handle_bytes
handle_bytes-Moves outside server client count received handled e =
    elim (Bool-cases (has_prefix (codes "$") received)) [
      | inl media ↦ inl (return_with-after _ client count handled (rw media at e))
      | inr text ↦ elim (Option-cases (parse_rtsp_request (c_string received))) [
        | inl bad ↦ inl (
            return_with-after minus_one (record client { last_activity_us = outside.now_us }) count
              handled (rw (handle_bytes, text, bad) at e))
        | inr (parsed, ok) ↦
            elim (handle_request-Moves outside server
              (record client { last_activity_us = outside.now_us; cseq = parsed.cseq }) count
              (c_string received) parsed handled (rw (handle_bytes, text, ok) at e)) [
                | inl stays ↦ inl stays
                | inr (checked, moves) ↦ inr (parsed, ok, checked, moves)
              ]
      ]
    ]

-- A call of `handle_client_connection` leaves the session's state, its slot and the server's count
-- of clients as they are, or the request could be parsed, it passed the authentication (only a TEARDOWN on a connection whose peer is
-- unknown goes without), and its method makes the move: SETUP to READY, PLAY from READY or PLAYING
-- to PLAYING, PAUSE from PLAYING to READY, and TEARDOWN to INIT, where it frees the slot and counts
-- the client out.
pub handle_client_connection-Moves :
    (outside : Outside) (server : Server) (client : Client) (count : ℤ) (handled : Handled)
    → handle_client_connection outside server client count ≡ some handled
    → (after handled ≡ before client count)
      ⊎ IsAllowedMove outside server client count (request_of outside client) handled
unfolding handle_client_connection
handle_client_connection-Moves outside server client count handled e =
    elim (Bool-cases (length outside.received == 0)) [
      | inl closed ↦ inl (return_with-after minus_one client count handled (rw closed at e))
      | inr open_ ↦
          handle_bytes-Moves outside server client count
            (from_teardown client.transport_mode outside.received) handled (rw open_ at e)
    ]
