-- ===== src/RtmpServer/Sending.antt =====
-- The messages that the server sends: the rtmp_send_ functions of
-- src/modules/rtmp_server/rtmp_server.c.
use mathlib.Core.Option
use strero.Prelude.{
  ℕ, Bool, not, ◌||◌, Option, none, some, ◌++◌, ◌==◌, if◌then◌else◌, length, Bytes, codes,
  minus_one,
}
use strero.RtmpServer.{ChunkHeader, Connection, Wire, be32}
use strero.RtmpServer.Socket.{Outcome, done, returned}
use strero.RtmpServer.Chunks.Writing.{rtmp_chunk_write}
use strero.RtmpServer.Amf.{
  amf_encode_string, amf_encode_number, amf_encode_null, amf_encode_object_start,
  amf_encode_object_end,
}

-- What a function of this file leaves behind; `none` is a call that does not return.
abbrev pub Sent : Type 0 → Type 0
Sent W = Option (Outcome (Unit {0}) × W)

-- A message of some type with a payload, at time `t`.
abbrev pub header_of : ℕ → ℕ → ℕ → ℕ → Bytes → ChunkHeader
header_of chunk_stream type stream t payload = record {
  fmt = 0;
  chunk_stream_id = chunk_stream;
  timestamp = t;
  message_length = length payload;
  message_type_id = type;
  message_stream_id = stream;
}

unfoldable pub connect_payload : ℕ → Bool → Bytes
connect_payload transaction_id success =
    amf_encode_string (some (if success then codes "_result" else codes "_error"))
    ++ (amf_encode_number transaction_id
        ++ ((amf_encode_object_start ++ amf_encode_object_end) ++ amf_encode_null))

unfoldable pub create_stream_payload : ℕ → ℕ → Bytes
create_stream_payload transaction_id stream_id =
    amf_encode_string (some (codes "_result"))
    ++ (amf_encode_number transaction_id ++ (amf_encode_null ++ amf_encode_number stream_id))

-- The status code and the description are in no message.
unfoldable pub status_payload : Bytes
status_payload =
    amf_encode_string (some (codes "onStatus"))
    ++ (amf_encode_number 0
        ++ (amf_encode_null ++ (amf_encode_object_start ++ amf_encode_object_end)))

module _ {W : Type 0} (wire : Wire W) (conn : Connection) where
  unfoldable pub rtmp_send_connect_result : ℕ → Bool → W → Sent W
  rtmp_send_connect_result transaction_id success =
      let payload = connect_payload transaction_id success in
      rtmp_chunk_write wire conn (header_of 3 20 0 0 payload) (some payload)

  unfoldable pub rtmp_send_create_stream_result : ℕ → ℕ → W → Sent W
  rtmp_send_create_stream_result transaction_id stream_id =
      let payload = create_stream_payload transaction_id stream_id in
      rtmp_chunk_write wire conn (header_of 3 20 0 0 payload) (some payload)

  unfoldable pub rtmp_send_publish_status : Bytes → Bytes → W → Sent W
  rtmp_send_publish_status status_code description =
      rtmp_chunk_write wire conn (header_of 3 20 1 0 status_payload) (some status_payload)

  unfoldable pub rtmp_send_play_status : Bytes → Bytes → W → Sent W
  rtmp_send_play_status status_code description = rtmp_send_publish_status status_code description

  unfoldable pub rtmp_send_acknowledgement : ℕ → W → Sent W
  rtmp_send_acknowledgement bytes_received w =
      if wire.malloc 4 w
      then rtmp_chunk_write wire conn (header_of 2 3 0 0 (be32 bytes_received))
          (some (be32 bytes_received)) w
      else some (returned minus_one, w)

  unfoldable pub rtmp_send_window_ack_size : ℕ → W → Sent W
  rtmp_send_window_ack_size window_size w =
      if wire.malloc 4 w
      then rtmp_chunk_write wire conn (header_of 2 5 0 0 (be32 window_size))
          (some (be32 window_size)) w
      else some (returned minus_one, w)

  -- The frame is `none` for NULL. Nothing is sent (and the result is 0) unless the client publishes.
  unfoldable pub send_media_frame : ℕ → ℕ → Option Bytes → ℕ → W → Sent W
  send_media_frame chunk_stream type none timestamp w = some (done tt, w)
  send_media_frame chunk_stream type (some frame) timestamp w =
      if length frame == 0 || not conn.publishing
      then some (done tt, w)
      else if wire.malloc (length frame) w
      then rtmp_chunk_write wire conn (header_of chunk_stream type 1 timestamp frame) (some frame) w
      else some (returned minus_one, w)

  unfoldable pub rtmp_send_video_frame : Option Bytes → ℕ → W → Sent W
  rtmp_send_video_frame = send_media_frame 4 9

  unfoldable pub rtmp_send_audio_frame : Option Bytes → ℕ → W → Sent W
  rtmp_send_audio_frame = send_media_frame 5 8

-- The new chunk size holds once the message is sent.
unfoldable pub resized :
    {W : Type 0} → Connection → ℕ → Outcome (Unit {0}) × W → Connection × (Outcome (Unit {0}) × W)
resized conn chunk_size (done ok, w) = (record conn { chunk_size_out = chunk_size }, (done ok, w))
resized conn chunk_size (returned code, w) = (conn, (returned code, w))

unfoldable pub rtmp_send_set_chunk_size :
    {W : Type 0} → Wire W → Connection → ℕ → W → Option (Connection × (Outcome (Unit {0}) × W))
rtmp_send_set_chunk_size wire conn chunk_size w =
    if wire.malloc 4 w
    then Option.map (resized conn chunk_size) (
        rtmp_chunk_write wire conn (header_of 2 1 0 0 (be32 chunk_size)) (some (be32 chunk_size)) w)
    else some (conn, (returned minus_one, w))
