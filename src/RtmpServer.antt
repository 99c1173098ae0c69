-- ===== src/RtmpServer.antt =====
-- The RTMP server, src/modules/rtmp_server/rtmp_server.c and rtmp_server.h: a connection, the
-- messages it carries, and the socket under it.
--
-- A uint8_t, uint16_t or uint32_t is a ℕ that is kept below 2^8, 2^16 or 2^32.
pub mod Socket
pub mod Chunks
pub mod Amf
pub mod Handshake
pub mod Commands
pub mod Sending
pub mod Handling
pub mod Serving
pub mod Connections
mod Examples
use strero.Prelude.{ℕ, ◌+◌, ◌*◌, ◌/◌, ◌%◌, ◌≤◌, ◌<◌, Bool, List, [], ◌∷◌, get_or, Bytes, ℤ}

-- rtmp_state_t
pub data ConnectionState : Type 0 where
  uninitialized : ConnectionState
  version_sent : ConnectionState
  ack_sent : ConnectionState
  handshake_done : ConnectionState
  connected : ConnectionState

-- rtmp_chunk_header_t
pub record ChunkHeader : Type 0 where
  pub fmt : ℕ
  pub chunk_stream_id : ℕ
  pub timestamp : ℕ
  pub message_length : ℕ
  pub message_type_id : ℕ
  pub message_stream_id : ℕ

-- rtmp_message_t: `payload` is the first `bytes_read` bytes of the allocated payload.
pub record Message : Type 0 where
  pub header : ChunkHeader
  pub payload : Bytes

-- rtmp_connection_t, without its thread, its list link, and its two byte counters, which nothing
-- uses. A string is what stands before its terminating zero.
pub record Connection : Type 0 where
  pub socket_fd : ℤ
  pub state : ConnectionState
  pub c0_s0_version : ℕ
  pub c1_s1_data : Bytes
  pub c2_s2_data : Bytes
  pub chunk_size_in : ℕ
  pub chunk_size_out : ℕ
  pub window_ack_size : ℕ
  pub app_name : Bytes
  pub stream_key : Bytes
  pub publishing : Bool
  pub thread_running : Bool

-- What recv returns: some bytes, none at the end of the stream, or an error.
pub data Received : Type 0 where
  received : Bytes → Received
  recv_failed : Received

-- What the server takes from the C library: sockets, the memory for a payload, the time and the
-- random numbers.
pub record Wire (W : Type 0) : Type 0 where
  pub recv : ℤ → ℕ → W → Received × W
  pub send : ℤ → Bytes → W → ℤ × W
  pub malloc : ℕ → W → Bool
  pub time : W → ℕ × W
  pub rand : W → ℕ × W

-- Two, three and four bytes, the highest first.
abbrev pub be16 : ℕ → Bytes
be16 n = (n / 256 % 256) ∷ (n % 256) ∷ []

abbrev pub be24 : ℕ → Bytes
be24 n = (n / 65536 % 256) ∷ (n / 256 % 256) ∷ (n % 256) ∷ []

abbrev pub be32 : ℕ → Bytes
be32 n = (n / 16777216 % 256) ∷ be24 n

-- Four bytes, the lowest first.
abbrev pub le32 : ℕ → Bytes
le32 n = (n % 256) ∷ (n / 256 % 256) ∷ (n / 65536 % 256) ∷ (n / 16777216 % 256) ∷ []

-- The number in the bytes from position `i` on.
abbrev pub read_be16 : Bytes → ℕ → ℕ
read_be16 bs i = get_or bs i 0 * 256 + get_or bs (i + 1) 0

abbrev pub read_be24 : Bytes → ℕ → ℕ
read_be24 bs i = read_be16 bs i * 256 + get_or bs (i + 2) 0

abbrev pub read_be32 : Bytes → ℕ → ℕ
read_be32 bs i = read_be24 bs i * 256 + get_or bs (i + 3) 0

abbrev pub read_le32 : Bytes → ℕ → ℕ
read_le32 bs i =
    get_or bs i 0
    + get_or bs (i + 1) 0 * 256
    + get_or bs (i + 2) 0 * 65536
    + get_or bs (i + 3) 0 * 16777216
