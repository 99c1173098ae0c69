-- ===== src/RtmpServer/Connections.antt =====
-- The list of connections: `rtmp_accept_thread`, `rtmp_connection_cleanup`, `rtmp_server_destroy`
-- and `rtmp_server_send_frame` of src/modules/rtmp_server/rtmp_server.c.
pub mod Counting
use mathlib.Core.Option
use strero.Prelude.{
  ℕ, ◌+◌, ◌-◌, ◌*◌, ◌/◌, ◌%◌, Bool, true, false, not, ◌&&◌, ◌||◌, Option, none, some, List, [], ◌∷◌,
  leb, ◌==◌, if◌then◌else◌, length, replicate, Bytes, ℤ, minus_one, is_negative,
}
use strero.RtmpServer.{ConnectionState, uninitialized, Connection, Wire}
use strero.RtmpServer.Socket.{Outcome, done, returned}
use strero.RtmpServer.Sending.{rtmp_send_video_frame}

-- rtmp_server_t, less its thread and port. A connection stands with its address. The
-- configuration is valid, so that `max_connections` is positive.
pub record ServerState : Type 0 where
  pub server_socket : ℤ
  pub running : Bool
  pub connections : List (ℕ × Connection)
  pub mutex_held : Bool
  pub max_connections : ℕ
  pub current_connections : ℕ

-- The default mutex: a thread that locks it again waits for ever, which is `none`.
unfoldable pub lock : ServerState → Option ServerState
lock server = if server.mutex_held then none else some (record server { mutex_held = true })

unfoldable pub unlock : ServerState → ServerState
unlock server = record server { mutex_held = false }

unfoldable pub contains_connection : ℕ → List (ℕ × Connection) → Bool
contains_connection p [] = false
contains_connection p ((q, _) ∷ later) = q == p || contains_connection p later

-- The list without the connection at this address.
unfoldable pub unlink : ℕ → List (ℕ × Connection) → List (ℕ × Connection)
unlink p [] = []
unlink p ((q, conn) ∷ later) =
    let rest = unlink p later in if q == p then later else (q, conn) ∷ rest

unfoldable pub remove_connection : ℕ → ServerState → ServerState
remove_connection p server =
    if contains_connection p server.connections
    then record server {
      connections = unlink p server.connections;
      current_connections = server.current_connections - 1;
    }
    else server

-- What the list keeps of a clean-up; the socket is closed and the connection is freed.
unfoldable pub rtmp_connection_cleanup : ℕ → ServerState → Option ServerState
rtmp_connection_cleanup p server =
    Option.map (λ locked. unlock (remove_connection p locked)) (lock server)

-- calloc, and what rtmp_accept_thread sets.
unfoldable pub new_connection : ℤ → Connection
new_connection fd = record {
  socket_fd = fd;
  state = uninitialized;
  c0_s0_version = 0;
  c1_s1_data = replicate 1536 0;
  c2_s2_data = replicate 1536 0;
  chunk_size_in = 65536;
  chunk_size_out = 65536;
  window_ack_size = 2500000;
  app_name = [];
  stream_key = [];
  publishing = false;
  thread_running = true;
}

unfoldable pub link : ℕ → ℤ → ServerState → ServerState
link p fd server = record server {
  connections = (p, new_connection fd) ∷ server.connections;
  current_connections = server.current_connections + 1;
}

unfoldable pub after_thread : ℕ → Bool → ServerState → Option ServerState
after_thread p true server = some server
after_thread p false server = rtmp_connection_cleanup p server

-- A client that was accepted: `address` is what calloc returned, and `thread` whether its thread
-- could be created.
unfoldable pub accept_client : ℤ → Option ℕ → Bool → ServerState → Option ServerState
accept_client fd none thread server = some server
accept_client fd (some p) thread server =
    if leb server.max_connections server.current_connections
    then some server
    else Option.bind (lock server) (λ locked. after_thread p thread (unlock (link p fd locked)))

-- The loop over the connections, in which each one is cleaned up.
unfoldable pub cleanup_all : List (ℕ × Connection) → ServerState → Option ServerState
cleanup_all [] server = some server
cleanup_all ((p, _) ∷ later) server =
    Option.bind (rtmp_connection_cleanup p server) (λ next. cleanup_all later next)

-- What accept returns to the accept thread: an error, or a client.
pub data Accepted : Type 0 where
  accept_error : Accepted
  accepted_client : ℤ → Option ℕ → Bool → Accepted

-- One round of rtmp_accept_thread. `none` in the place of what accept returns is an accept that does
-- not return.
unfoldable pub accept_round : Option Accepted → ServerState → Option ServerState
accept_round none server = none
accept_round (some accept_error) server = some server
accept_round (some (accepted_client fd address thread)) server =
    accept_client fd address thread server

-- Closing the socket does not wake an accept that waits: pthread_join returns behind the round of
-- the accept thread, which finds `running` false then. `none` is a call that does not return; behind
-- the loop the mutex is unlocked and destroyed, and the server is freed and NULL.
unfoldable pub rtmp_server_destroy :
    Option Accepted → Option ServerState → Option (Option ServerState)
rtmp_server_destroy waiting none = some none
rtmp_server_destroy waiting (some server) =
    Option.bind
      (accept_round waiting (record server {
        running = false;
        server_socket =
            if is_negative server.server_socket then server.server_socket else minus_one;
      }))
      (λ joined.
        Option.bind (lock joined)
          (λ locked. Option.map (λ _. none) (cleanup_all locked.connections locked)))

-- Milliseconds, as an uint32_t.
unfoldable pub rtmp_timestamp : ℕ → ℕ → ℕ
rtmp_timestamp seconds microseconds = (seconds * 1000 + microseconds / 1000) % 4294967296

unfoldable pub count_sent : {W : Type 0} → ℕ → Outcome (Unit {0}) × W → ℕ × W
count_sent sent (done _, w) = (sent + 1, w)
count_sent sent (returned _, w) = (sent, w)

unfoldable pub send_to_all :
    {W : Type 0} → Wire W → Bytes → ℕ → List (ℕ × Connection) → ℕ → W → Option (ℕ × W)
send_to_all wire frame timestamp [] sent w = some (sent, w)
send_to_all wire frame timestamp ((_, conn) ∷ later) sent w =
    elim (conn.publishing && conn.thread_running) [
      | true ↦ Option.bind (rtmp_send_video_frame wire conn (some frame) timestamp w) (λ o.
          let (sent', w') = count_sent sent o in send_to_all wire frame timestamp later sent' w')
      | false ↦ send_to_all wire frame timestamp later sent w
    ]

-- The result is the number of clients that got the frame.
unfoldable pub rtmp_server_send_frame :
    {W : Type 0} → Wire W → ServerState → Option Bytes → ℕ × ℕ → W → Option (ℕ × W)
rtmp_server_send_frame wire server none time w = some (0, w)
rtmp_server_send_frame wire server (some frame) time w =
    if length frame == 0
    then some (0, w)
    else send_to_all wire frame (rtmp_timestamp time.0 time.1) server.connections 0 w
