-- ===== src/RtspServer.antt =====
-- The RTSP server, src/modules/rtsp/rtsp_server.c and rtsp_server.h: a client and its session.
--
-- A `Client` is `rtsp_client_t` without its TLS contexts, RTCP address, `rtp_timestamp` and
-- request length (which nothing here reads), and a uint16_t or uint32_t is a ℕ that is kept below 2^16 or 2^32.
pub mod Rtp
pub mod Text
pub mod Frames
pub mod Lifecycle
pub mod Messages
pub mod Responses
pub mod Describe
pub mod Session
pub mod Slots
mod Examples
use strero.Prelude.{
  ℕ, zero, suc, ◌+◌, ◌-◌, ◌%◌, ◌<◌, Bool, true, false, ltb, not, Bytes, List, ℤ, pos, negsuc,
}
use strero.Auth.Basic.{AuthConfig}

pub data ClientState : Type 0 where
  client_state_init : ClientState
  client_state_ready : ClientState
  client_state_playing : ClientState
  client_state_paused : ClientState

pub data VideoCodec : Type 0 where
  codec_h264 : VideoCodec
  codec_h265 : VideoCodec

pub data TransportMode : Type 0 where
  transport_udp : TransportMode
  transport_tcp : TransportMode

-- struct sockaddr_in
pub record Address : Type 0 where
  host : ℕ
  port : ℕ

pub record Client : Type 0 where
  socket_fd : ℤ
  client_addr : Address
  state : ClientState
  session_id : Bytes
  cseq : ℤ
  rtp_addr : Address
  rtp_port : ℤ
  rtcp_port : ℤ
  rtp_socket_fd : ℤ
  rtp_seq : ℕ
  rtp_ssrc : ℕ
  video_channel : ℤ
  codec : VideoCodec
  transport_mode : TransportMode
  request_buffer : Bytes
  last_activity_us : ℕ
  active : Bool
  needs_idr : Bool
  idr_wait_start_us : ℕ
  supports_backchannel : Bool
  use_tls : Bool

pub data RtspMethod : Type 0 where
  method_unknown : RtspMethod
  method_options : RtspMethod
  method_describe : RtspMethod
  method_setup : RtspMethod
  method_play : RtspMethod
  method_pause : RtspMethod
  method_teardown : RtspMethod
  method_get_parameter : RtspMethod
  method_set_parameter : RtspMethod

-- video_stream_config_t, without the bit rate
pub record Stream : Type 0 where
  channel : ℤ
  codec : VideoCodec
  width : ℕ
  height : ℕ
  fps : ℕ
  stream_name : Bytes
  stream_info : Bytes

-- The part of rtsp_server_t that the server thread works on, with `g_config->general.server_ip`.
pub record Server : Type 0 where
  clients : List Client
  client_count : ℤ
  streams : List Stream
  port : ℤ
  server_ip : Bytes
  max_clients : ℤ
  session_timeout : ℕ
  auth : AuthConfig
  total_connections : ℕ

-- The calls that hand bytes to the network, over the state `W` of what is outside the program: the
-- socket calls `sendto` and `send`, and the write of the TLS library. Each answers the number of
-- bytes taken, or a negative number.
pub record Sockets (W : Type 0) : Type 0 where
  sendto : ℤ → Address → Bytes → W → ℤ × W
  send : ℤ → Bytes → W → ℤ × W
  tls_write : Client → Bytes → W → ℤ × W

abbrev pub max_rtp_packet_size : ℕ
max_rtp_packet_size = 1200

abbrev pub payload_type : VideoCodec → ℕ
payload_type codec_h264 = 96
payload_type codec_h265 = 97

-- sent < size
abbrev pub is_below : ℤ → ℕ → Bool
is_below (pos n) size = ltb n size
is_below (negsuc n) size = true

-- (uint8_t) of an int
abbrev pub low_byte : ℤ → ℕ
low_byte (pos n) = n % 256
low_byte (negsuc n) = 255 - n % 256

abbrev pub is_playing : ClientState → Bool
is_playing client_state_playing = true
is_playing _ = false

abbrev pub IsU16 : ℕ → Type 0
IsU16 n = n < 65536
