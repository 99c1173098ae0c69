-- ===== src/RtspServer/Rtp/Dispatch.antt =====
-- `send_rtp_packet` of src/modules/rtsp/rtsp_server.c: a NAL unit for a client that plays.
use strero.Prelude.{
  ℕ, Bool, not, ◌||◌, Option, some, ◌++◌, leb, ltb, if◌then◌else◌, length, Bytes, codes, has_prefix,
  pos, minus_one, is_negative,
}
use strero.RtspServer.{
  Client, Sockets, VideoCodec, codec_h264, codec_h265, TransportMode, transport_udp, transport_tcp,
  is_playing,
}
use strero.RtspServer.Rtp.{
  Sending, rtp_header, next_seq, skip_start_code, single_result, deliver_udp, deliver_tcp_h264,
  send_h264_fragmented_rtp, send_h265_fragmented_rtp,
}

-- Bytes that a client could take for a request or a response.
unfoldable pub looks_like_text : Bytes → Bool
looks_like_text packet =
    has_prefix (codes "RTSP") packet
    || has_prefix (codes "GET ") packet
    || has_prefix (codes "POST") packet
    || has_prefix (codes "OPTI") packet

module _ {W : Type 0} (net : Sockets W) where
  -- A packet of at most 1200 bytes, on a client whose sequence number is counted already.
  unfoldable pub send_packet : TransportMode → Client → Bytes → W → Sending W
  send_packet transport_udp client packet w =
      if is_negative client.rtp_socket_fd
      then (minus_one, client, w)
      else single_result packet client (deliver_udp net client packet w)
  send_packet transport_tcp client packet w =
      if looks_like_text packet
      then (pos 0, client, w)
      else single_result packet client (deliver_tcp_h264 net client packet w)

  unfoldable pub send_small : VideoCodec → Client → Bytes → ℕ → Bool → W → Sending W
  send_small codec_h264 client bytes timestamp marker w =
      send_packet client.transport_mode (next_seq client)
        (rtp_header client codec_h264 timestamp marker ++ bytes) w
  send_small codec_h265 client bytes timestamp marker w =
      let nal = skip_start_code bytes in
      if leb 2 (length nal)
      then send_packet client.transport_mode (next_seq client)
          (rtp_header client codec_h265 timestamp marker ++ nal) w
      else (pos 0, next_seq client, w)

  unfoldable pub send_fragmented : VideoCodec → Client → Bytes → ℕ → Bool → W → Option (Sending W)
  send_fragmented codec_h264 = send_h264_fragmented_rtp net
  send_fragmented codec_h265 = send_h265_fragmented_rtp net

  unfoldable pub send_rtp_packet : Client → Bytes → ℕ → Bool → W → Option (Sending W)
  send_rtp_packet client bytes timestamp marker w =
      if not (is_playing client.state)
      then some (pos 0, client, w)
      else if ltb 1184 (length bytes)
      then send_fragmented client.codec client bytes timestamp marker w
      else some (send_small client.codec client bytes timestamp marker w)
