-- ===== src/RtspServer/Lifecycle.antt =====
-- The start and the stop of the RTSP server, and the questions of other modules, in
-- src/modules/rtsp/rtsp_server.c. What the socket calls, the set-up of TLS and `pthread_create`
-- answer is an argument. The callback, which nothing calls, is left out.
pub mod Start
mod Examples
use strero.Prelude.{
  ℕ, suc, ◌≡◌, refl, Bool, true, false, not, ◌&&◌, ◌||◌, Option, none, some, List, [], ◌∷◌, ◌++◌,
  leb, ◌==◌, if◌then◌else◌, Bytes, codes, ℤ, pos, negsuc, minus_one, is_negative, Bool-cases, inl,
  inr, ap, ◌∙◌, arith,
}
use strero.RtspServer.{Client, Stream, Server, is_playing}
use strero.RtspServer.Frames.{watches}

-- The fields of rtsp_server_t that start and stop change; the TLS contexts are there or not.
pub record Listening : Type 0 where
  pub listen_socket : ℤ
  pub tls_listen_socket : ℤ
  pub has_tls_context : Bool
  pub running : Bool
  pub should_stop : Bool

pub record StartAnswers : Type 0 where
  pub new_socket : ℤ
  pub bind_ok : Bool
  pub listen_ok : Bool
  pub tls_enabled : Bool
  pub tls_init_ok : Bool
  pub new_tls_socket : ℤ
  pub tls_bind_ok : Bool
  pub tls_listen_ok : Bool
  pub server_thread_ok : Bool
  pub rtp_thread_ok : Bool

unfoldable pub start_threads : StartAnswers → Listening → ℤ × Listening
start_threads answers server0 =
    let server = record server0 { running = true; should_stop = false } in
    if not answers.server_thread_ok
    then (minus_one, record server { running = false; listen_socket = minus_one })
    else if not answers.rtp_thread_ok
    then (
      minus_one,
      record server { should_stop = true; running = false; listen_socket = minus_one },
    )
    else (pos 0, server)

-- A failure before the threads: the TLS context is cleaned up, and the sockets are closed.
unfoldable pub give_up_tls : ℤ → Listening → ℤ × Listening
give_up_tls tls_socket server = (
  minus_one,
  record server {
    tls_listen_socket = tls_socket;
    has_tls_context = false;
    listen_socket = minus_one;
  },
)

unfoldable pub start_tls : StartAnswers → Listening → ℤ × Listening
start_tls answers server =
    if not answers.tls_enabled
    then start_threads answers server
    else if not answers.tls_init_ok
    then (minus_one, record server { listen_socket = minus_one })
    else if is_negative answers.new_tls_socket
    then give_up_tls answers.new_tls_socket server
    else if not answers.tls_bind_ok || not answers.tls_listen_ok
    then give_up_tls minus_one server
    else start_threads answers
        (record server { has_tls_context = true; tls_listen_socket = answers.new_tls_socket })

unfoldable pub rtsp_server_start : StartAnswers → Listening → ℤ × Listening
rtsp_server_start answers server =
    if server.running
    then (pos 0, server)
    else if is_negative answers.new_socket
    then (minus_one, record server { listen_socket = answers.new_socket })
    else if not answers.bind_ok || not answers.listen_ok
    then (minus_one, record server { listen_socket = minus_one })
    else start_tls answers (record server { listen_socket = answers.new_socket })

unfoldable pub rtsp_server_stop : Listening → ℤ × Listening
rtsp_server_stop server = if not server.running then (pos 0, server) else (
  pos 0,
  record server {
    should_stop = true;
    listen_socket = if is_negative server.listen_socket then server.listen_socket else minus_one;
    running = false;
  },
)

-- The clients that play a channel, of the four that there are.
unfoldable pub count_watchers : ℤ → List Client → ℕ
count_watchers channel [] = 0
count_watchers channel (client ∷ clients) =
    let rest = count_watchers channel clients in if watches channel client then suc rest else rest

unfoldable pub is_channel : ℤ → Bool
is_channel (pos n) = leb n 3
is_channel (negsuc n) = false

unfoldable pub rtsp_server_get_client_count : Server → ℤ → ℕ
rtsp_server_get_client_count server channel =
    if is_channel channel then count_watchers channel server.clients else 0

-- Whether memory for one stream more was there.
unfoldable pub rtsp_server_add_stream : Bool → Stream → Server → ℤ × Server
rtsp_server_add_stream realloc_ok stream server =
    if not realloc_ok
    then (minus_one, server)
    else (pos 0, record server { streams = server.streams ++ (stream ∷ []) })
