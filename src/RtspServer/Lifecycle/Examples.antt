-- ===== src/RtspServer/Lifecycle/Examples.antt =====
-- A start of the RTSP server of src/modules/rtsp/rtsp_server.c whose second thread fails.
use strero.Prelude.{◌≡◌, refl, true, false, not, pos, is_negative, minus_one}
use strero.RtspServer.Lifecycle.{
  Listening, StartAnswers, start_threads, start_tls, rtsp_server_start, rtsp_server_stop,
}
use strero.RtspServer.Lifecycle.Start.{rtsp_server_stop-rtsp_server_start}

abbrev stopped : Listening
stopped = record {
  listen_socket = minus_one;
  tls_listen_socket = minus_one;
  has_tls_context = false;
  running = false;
  should_stop = false;
}

abbrev answers : StartAnswers
answers = record {
  new_socket = pos 3;
  bind_ok = true;
  listen_ok = true;
  tls_enabled = true;
  tls_init_ok = true;
  new_tls_socket = pos 4;
  tls_bind_ok = true;
  tls_listen_ok = true;
  server_thread_ok = true;
  rtp_thread_ok = false;
}

rtsp_server_stop-rtsp_server_start_example :
    let (result, started) = rtsp_server_start answers stopped in
    let after_stop = (rtsp_server_stop started).1 in
    (is_negative result ≡ not started.running)
    × (is_negative started.listen_socket ≡ not started.running)
    × (started.has_tls_context ≡ true)
    × (after_stop.running ≡ false)
    × (is_negative after_stop.listen_socket ≡ true)
    × (after_stop.has_tls_context ≡ true)
rtsp_server_stop-rtsp_server_start_example =
    rtsp_server_stop-rtsp_server_start answers stopped refl refl

-- The start fails, and the TLS socket stays open.
left_open : rtsp_server_start answers stopped ≡ (
  minus_one,
  record {
    listen_socket = minus_one;
    tls_listen_socket = pos 4;
    has_tls_context = true;
    running = false;
    should_stop = true;
  },
)
unfolding rtsp_server_start start_tls start_threads
left_open = refl
