-- ===== src/RtspServer/Lifecycle/Start.antt =====
-- What a start and a stop of the RTSP server in src/modules/rtsp/rtsp_server.c leave open.
use strero.Prelude.{◌≡◌, Bool, true, false, not, ◌&&◌, ℤ, is_negative, arith}
use strero.RtspServer.Lifecycle.{
  Listening, StartAnswers, start_threads, give_up_tls, start_tls, rtsp_server_start,
  rtsp_server_stop,
}

-- The TLS part is set up: every call for it, and for the socket before it, went well.
abbrev pub tls_up : StartAnswers → Bool
tls_up answers =
    not (is_negative answers.new_socket)
    && answers.bind_ok
    && answers.listen_ok
    && answers.tls_enabled
    && answers.tls_init_ok
    && not (is_negative answers.new_tls_socket)
    && answers.tls_bind_ok
    && answers.tls_listen_ok

-- What a start has to leave, as a function of what it answers.
abbrev IsStarted : Bool → ℤ × Listening → Type 0
IsStarted with_tls (result, server) =
    (is_negative result ≡ not server.running)
    × (is_negative server.listen_socket ≡ not server.running)
    × (server.has_tls_context ≡ with_tls)

start_threads-IsStarted :
    (answers : StartAnswers) (server : Listening)
    → is_negative server.listen_socket ≡ false
    → IsStarted server.has_tls_context (start_threads answers server)
unfolding start_threads
start_threads-IsStarted answers server fd = ground arith

start_tls-IsStarted :
    (answers : StartAnswers) (server : Listening)
    → is_negative answers.new_socket ≡ false
    → answers.bind_ok ≡ true
    → answers.listen_ok ≡ true
    → is_negative server.listen_socket ≡ false
    → server.running ≡ false
    → server.has_tls_context ≡ false
    → IsStarted (tls_up answers) (start_tls answers server)
unfolding start_tls give_up_tls
start_tls-IsStarted answers server s b l fd stopped no_tls = ground (
  arith,
  start_threads-IsStarted answers server fd,
  start_threads-IsStarted answers
      (record server { has_tls_context = true; tls_listen_socket = answers.new_tls_socket }) fd,
)

rtsp_server_start-IsStarted :
    (answers : StartAnswers) (server : Listening)
    → server.running ≡ false
    → server.has_tls_context ≡ false
    → IsStarted (tls_up answers) (rtsp_server_start answers server)
unfolding rtsp_server_start
rtsp_server_start-IsStarted answers server stopped no_tls =
    ground
      (arith, start_tls-IsStarted answers (record server { listen_socket = answers.new_socket }))

-- A start of a server that is stopped, whatever the calls answer: it returns a negative number
-- exactly if the server does not run afterwards, and the listening socket is open exactly if it
-- runs. A stop then leaves it not running, with the listening socket closed. But the TLS context
-- is there, after a start that failed for one of its threads as well as after the stop, if the TLS
-- part was set up: neither releases it.
pub rtsp_server_stop-rtsp_server_start :
    (answers : StartAnswers) (server : Listening)
    → server.running ≡ false
    → server.has_tls_context ≡ false
    → let (result, started) = rtsp_server_start answers server in
      let stopped = (rtsp_server_stop started).1 in
      (is_negative result ≡ not started.running)
      × (is_negative started.listen_socket ≡ not started.running)
      × (started.has_tls_context ≡ tls_up answers)
      × (stopped.running ≡ false)
      × (is_negative stopped.listen_socket ≡ true)
      × (stopped.has_tls_context ≡ tls_up answers)
unfolding rtsp_server_stop
rtsp_server_stop-rtsp_server_start answers server stopped no_tls =
    let (result, fd, tls) = rtsp_server_start-IsStarted answers server stopped no_tls in
    (result, fd, tls, ground arith, ground (arith, fd), ground (arith, tls))
