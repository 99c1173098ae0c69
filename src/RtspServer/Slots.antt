-- ===== src/RtspServer/Slots.antt =====
-- The client slots of src/modules/rtsp/rtsp_server.c: `find_free_client_slot`, and the rounds of
-- `server_thread_func` after `select` returned. An `unsigned long` has 32 bits, as on the cameras'
-- MIPS processors: differences of times are taken modulo 2^32.
pub mod Counting
pub mod Rounds
pub mod Teardown
mod Examples
pub mod Playing
use strero.Prelude.{
  ℕ, zero, suc, ◌+◌, ◌-◌, ◌*◌, ◌%◌, ◌≤◌, ◌<◌, Bool, true, false, not, ◌&&◌, ◌||◌, Option, none,
  some, List, [], ◌∷◌, leb, ltb, ◌==◌, if◌then◌else◌, length, get_elem?, set, Bytes, ℤ, pos, negsuc,
  minus_one, is_negative,
}
use mathlib.Core.Option
use strero.RtspServer.{
  Client, ClientState, client_state_init, client_state_ready, client_state_playing,
  client_state_paused, TransportMode, transport_udp, transport_tcp, Address, Server, is_playing,
}
use strero.RtspServer.Session.{Outside, Handled, decrement}
use strero.RtspServer.Session.Connection.{cleanup_client, handle_client_connection}

-- The index of the first slot that is free.
unfoldable pub find_free_client_slot : List Client → Option ℕ
find_free_client_slot [] = none
find_free_client_slot (client ∷ clients) =
    let rest = Option.map suc (find_free_client_slot clients) in
    if client.active then rest else some 0

unfoldable pub increment : ℤ → ℤ
increment (pos n) = pos (suc n)
increment (negsuc zero) = pos 0
increment (negsuc (suc n)) = negsuc n

-- a >= b
unfoldable pub is_at_least : ℤ → ℤ → Bool
is_at_least (pos a) (pos b) = leb b a
is_at_least (pos a) (negsuc b) = true
is_at_least (negsuc a) (pos b) = false
is_at_least (negsuc a) (negsuc b) = leb a b

-- A connection that `accept` returned: its socket, its peer, and what the clock and the random
-- numbers give for it. A TLS connection comes with the outcome of its handshake.
pub record Connection : Type 0 where
  pub fd : ℤ
  pub addr : Address
  pub now_us : ℕ
  pub new_session_id : Bytes
  pub random_seq : ℕ
  pub random_ssrc : ℕ
  pub over_tls : Bool
  pub handshake_ok : Bool

-- What the server sets up in a slot before TLS and the RTP parameters.
unfoldable pub init_client : Connection → Client → Client
init_client connection client = record client {
  socket_fd = connection.fd;
  rtp_socket_fd = minus_one;
  active = true;
  state = client_state_init;
  transport_mode = transport_udp;
  needs_idr = false;
  idr_wait_start_us = 0;
  client_addr = connection.addr;
  last_activity_us = connection.now_us;
  session_id = connection.new_session_id;
  use_tls = false;
}

unfoldable pub init_rtp : Connection → Client → Client
init_rtp connection client = record client {
  rtp_seq = connection.random_seq % 65536;
  rtp_ssrc = connection.random_ssrc % 4294967296;
  use_tls = connection.over_tls;
}

-- A TLS connection whose handshake fails is closed, but keeps its slot.
unfoldable pub fill_slot : Connection → ℕ → Client → Server → Server
fill_slot connection slot client server =
    if connection.over_tls && not connection.handshake_ok
    then record server { clients = set server.clients slot (init_client connection client) }
    else record server {
      clients = set server.clients slot (init_rtp connection (init_client connection client));
      client_count = increment server.client_count;
      total_connections = server.total_connections + 1;
    }

-- A new connection: it is closed at once if there are enough clients, or no slot is free.
unfoldable pub accept_connection : Connection → Server → Server
accept_connection connection server =
    if is_at_least server.client_count server.max_clients
    then server
    else elim (find_free_client_slot server.clients) [
      | none ↦ server
      | some slot ↦ elim (get_elem? server.clients slot) [
        | none ↦ server
        | some client ↦ fill_slot connection slot client server
      ]
    ]

-- now - last > timeout, of unsigned long
unfoldable pub is_expired : ℕ → ℕ → Client → Bool
is_expired now_us timeout_s client =
    ltb (timeout_s * 1000000 % 4294967296)
      ((now_us + 4294967296 - client.last_activity_us) % 4294967296)

-- An idle second: the clients that were silent for too long leave.
unfoldable pub sweep_clients : ℕ → ℕ → List Client → ℤ → List Client × ℤ
sweep_clients now_us timeout_s [] count = ([], count)
sweep_clients now_us timeout_s (client ∷ clients) count =
    let out = client.active && is_expired now_us timeout_s client in
    let (rest, left) =
      sweep_clients now_us timeout_s clients (if out then decrement count else count) in
    ((if out then cleanup_client client else client) ∷ rest, left)

-- The state that a playing TCP client has while its request is handled.
unfoldable pub hold_media : TransportMode → Client → Client
hold_media transport_udp client = client
hold_media transport_tcp client =
    if is_playing client.state then record client { state = client_state_ready } else client

abbrev pub is_ready : ClientState → Bool
is_ready client_state_ready = true
is_ready _ = false

-- The playing state is restored, if the request went well and left the session READY.
unfoldable pub resume_media : Bool → Handled → Client
resume_media was_playing handled =
    if handled.client.active
      && not (is_negative handled.result)
      && was_playing
      && is_ready handled.client.state
    then record handled.client { state = client_state_playing }
    else handled.client

-- A request that failed: the slot is freed, and the client is counted out.
unfoldable pub drop_client : Bool → Client → ℤ → Client × ℤ
drop_client true client count = (cleanup_client (record client { active = false }), decrement count)
drop_client false client count = (client, count)

unfoldable pub finish_request : Bool → Handled → Client × ℤ
finish_request was_playing handled =
    drop_client (is_negative handled.result) (resume_media was_playing handled) handled.client_count

-- A client whose socket is readable; `none` is a fault of the authentication.
unfoldable pub serve_client : Outside → Server → Client → ℤ → Option (Client × ℤ)
serve_client outside server client count =
    Option.map (finish_request (is_playing client.state))
      (handle_client_connection outside server (hold_media client.transport_mode client) count)

-- The loop over the slots, with what the outside answers to each client that is readable.
unfoldable pub serve_clients :
    Server → List (Option Outside) → List Client → ℤ → Option (List Client × ℤ)
serve_clients server ready [] count = some ([], count)
serve_clients server [] (client ∷ clients) count = some (client ∷ clients, count)
serve_clients server (none ∷ ready) (client ∷ clients) count =
    Option.map (λ r. (client ∷ r.0, r.1)) (serve_clients server ready clients count)
serve_clients server (some outside ∷ ready) (client ∷ clients) count =
    if client.active && not (is_negative client.socket_fd)
    then Option.bind (serve_client outside server client count) (λ served.
      Option.map (λ r. (served.0 ∷ r.0, r.1)) (serve_clients server ready clients served.1))
    else Option.map (λ r. (client ∷ r.0, r.1)) (serve_clients server ready clients count)

-- After an error of `select`, the clients whose sockets are no longer valid are marked inactive.
unfoldable pub mark_invalid : List Bool → List Client → List Client
mark_invalid invalid [] = []
mark_invalid [] (client ∷ clients) = client ∷ clients
mark_invalid (bad ∷ invalid) (client ∷ clients) =
    (if client.active && not (is_negative client.socket_fd) && bad
      then record client { active = false }
      else client)
    ∷ mark_invalid invalid clients

-- What `select` found in one round of the thread.
pub data Activity : Type 0 where
  failed : List Bool → Activity
  idle : ℕ → Activity
  busy : Option Connection → Option Connection → List (Option Outside) → Activity

unfoldable pub accept_if : Option Connection → Server → Server
accept_if none server = server
accept_if (some connection) server = accept_connection connection server

unfoldable pub server_round : Activity → Server → Option Server
server_round (failed invalid) server =
    some (record server { clients = mark_invalid invalid server.clients })
server_round (idle now_us) server =
    let (clients, count) =
      sweep_clients now_us server.session_timeout server.clients server.client_count in
    some (record server { clients = clients; client_count = count })
server_round (busy plain tls ready) server0 =
    let server = accept_if tls (accept_if plain server0) in
    Option.map (λ r. record server { clients = r.0; client_count = r.1 })
      (serve_clients server ready server.clients server.client_count)
