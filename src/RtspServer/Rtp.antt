-- ===== src/RtspServer/Rtp.antt =====
-- How src/modules/rtsp/rtsp_server.c cuts a NAL unit into RTP packets: `send_rtp_packet` and the
-- two functions for units that do not fit one packet. The delays (`usleep`), the log and the
-- failure counters that only the log reads are left out.
pub mod Fragments
pub mod Dispatch
pub mod Refinement
pub mod Receiver
pub mod Units
pub mod RoundTrip
pub mod Delivery
pub mod Bounds
use strero.Prelude.{
  ℕ, zero, suc, ◌+◌, ◌-◌, ◌*◌, ◌/◌, ◌%◌, ◌≤◌, ◌<◌, Bool, true, false, not, ◌&&◌, Option, none, some,
  List, [], ◌∷◌, ◌++◌, leb, ltb, ◌==◌, if◌then◌else◌, length, take, drop, get_or, Bytes, has_prefix,
  ℤ, pos, negsuc, minus_one, is_negative,
}
use strero.RtspServer.{
  Client, Sockets, VideoCodec, codec_h264, codec_h265, TransportMode, transport_udp, transport_tcp,
  Address, max_rtp_packet_size, payload_type, is_below, low_byte, is_playing,
}

-- What a function that sends leaves: its result, the client and the outside.
abbrev pub Sending : Type 0 → Type 0
Sending W = ℤ × Client × W

-- The twelve bytes of the RTP header.
unfoldable pub rtp_header : Client → VideoCodec → ℕ → Bool → Bytes
rtp_header client codec timestamp marker =
    128
    ∷ (if marker then payload_type codec + 128 else payload_type codec)
    ∷ client.rtp_seq / 256 % 256
    ∷ client.rtp_seq % 256
    ∷ timestamp / 16777216 % 256
    ∷ timestamp / 65536 % 256
    ∷ timestamp / 256 % 256
    ∷ timestamp % 256
    ∷ client.rtp_ssrc / 16777216 % 256
    ∷ client.rtp_ssrc / 65536 % 256
    ∷ client.rtp_ssrc / 256 % 256
    ∷ client.rtp_ssrc % 256
    ∷ []

-- client->rtp_seq++, of a uint16_t
unfoldable pub next_seq : Client → Client
next_seq client = record client { rtp_seq = (client.rtp_seq + 1) % 65536 }

-- What is behind a start code of four or of three bytes.
unfoldable pub skip_start_code : Bytes → Bytes
skip_start_code bytes =
    if has_prefix (0 ∷ 0 ∷ 0 ∷ 1 ∷ []) bytes
    then drop 4 bytes
    else if has_prefix (0 ∷ 0 ∷ 1 ∷ []) bytes
    then drop 3 bytes
    else bytes

-- '$', the channel and the packet's size, in front of a packet on a TCP connection.
unfoldable pub interleaved_header : Client → Bytes → Bytes
interleaved_header client packet =
    36 ∷ low_byte client.rtp_port ∷ length packet / 256 % 256 ∷ length packet % 256 ∷ []

-- A write on the client's connection; what is behind `tls_write` is the TLS library's.
unfoldable pub rtsp_client_tls_write : {W : Type 0} → Sockets W → Client → Bytes → W → ℤ × W
rtsp_client_tls_write net client bytes w =
    if client.use_tls then net.tls_write client bytes w else net.send client.socket_fd bytes w

-- packet_size and the failure of a delivery, as the functions answer them.
unfoldable pub single_result : {W : Type 0} → Bytes → Client → Bool × W → Sending W
single_result packet client (delivered, w) =
    (if delivered then pos (length packet) else minus_one, client, w)

-- RFC 6184, FU-A: the indicator and the FU header for a unit whose header byte is `header`.
unfoldable pub fu_a : ℕ → Bool → Bool → Bytes
fu_a header is_first is_last =
    (header / 32 % 4 * 32 + 28)
    ∷ (header % 32 + (if is_first then 128 else 0) + (if is_last then 64 else 0))
    ∷ []

-- RFC 7798, FU: the payload header (type 49, the unit's layer and temporal ids) and the FU header
-- for a unit that begins with `first second`.
unfoldable pub fu_h265 : ℕ → ℕ → Bool → Bool → Bytes
fu_h265 first second is_first is_last =
    let nal_header = first * 256 + second in
    let payload_hdr = 25088 + nal_header / 8 % 64 * 8 + nal_header % 8 in
    payload_hdr / 256 % 256
    ∷ payload_hdr % 256
    ∷ (nal_header / 512 % 64 + (if is_first then 128 else 0) + (if is_last then 64 else 0))
    ∷ []

module _ {W : Type 0} (net : Sockets W) where
  unfoldable pub deliver_udp : Client → Bytes → W → Bool × W
  deliver_udp client packet w =
      let (sent, w') = net.sendto client.rtp_socket_fd client.rtp_addr packet w in
      (not (is_negative sent), w')

  -- H.264: one write of the header and the packet.
  unfoldable pub deliver_tcp_h264 : Client → Bytes → W → Bool × W
  deliver_tcp_h264 client packet w =
      let (sent, w') =
        rtsp_client_tls_write net client (interleaved_header client packet ++ packet) w in
      (not (is_below sent (length packet + 4)), w')

  -- H.265: the header and the packet are sent one after the other, past TLS.
  unfoldable pub deliver_tcp_h265 : Client → Bytes → W → Bool × W
  deliver_tcp_h265 client packet w =
      let (header_sent, w1) = net.send client.socket_fd (interleaved_header client packet) w in
      let (sent, w2) = net.send client.socket_fd packet w1 in
      if is_below header_sent 4 then (false, w1) else (not (is_below sent (length packet)), w2)

  unfoldable pub deliver_over : TransportMode → VideoCodec → Client → Bytes → W → Bool × W
  deliver_over transport_udp codec = deliver_udp
  deliver_over transport_tcp codec_h264 = deliver_tcp_h264
  deliver_over transport_tcp codec_h265 = deliver_tcp_h265

  -- Whether a packet is on its way, and the outside.
  unfoldable pub deliver_packet : VideoCodec → Client → Bytes → W → Bool × W
  deliver_packet codec client = deliver_over client.transport_mode codec client

  -- The loop over the fragments: `fu first last` are the codec's bytes between the RTP header and
  -- the payload. `none` is a loop that the fuel does not end.
  unfoldable pub fragment_loop :
      VideoCodec
      → ℕ
      → (Bool → Bool → Bytes)
      → ℕ
      → Bool
      → ℕ
      → Bytes
      → ℕ
      → Client
      → W
      → Option (Sending W)
  fragment_loop codec max_payload_size fu timestamp marker zero nal_data fragments_sent client w =
      none
  fragment_loop codec max_payload_size fu timestamp marker (suc fuel) [] fragments_sent client w =
      some (pos fragments_sent, client, w)
  fragment_loop codec max_payload_size fu timestamp marker (suc fuel) (x ∷ xs) fragments_sent client
        w =
      let nal_data = x ∷ xs in
      let is_last = leb (length nal_data) max_payload_size in
      let packet =
        rtp_header client codec timestamp (is_last && marker)
        ++ fu (fragments_sent == 0) is_last
        ++ take max_payload_size nal_data in
      let client' = next_seq client in
      let (delivered, w') = deliver_packet codec client' packet w in
      let rest =
        fragment_loop codec max_payload_size fu timestamp marker fuel
          (drop max_payload_size nal_data) (fragments_sent + 1) client' w' in
      if delivered then rest else some (minus_one, client', w')

  -- A NAL unit as the payload of one packet.
  unfoldable pub send_single : VideoCodec → Client → Bytes → ℕ → Bool → W → Sending W
  send_single codec client nal timestamp marker w =
      let packet = rtp_header client codec timestamp marker ++ nal in
      let client' = next_seq client in
      single_result packet client' (deliver_packet codec client' packet w)

  unfoldable pub fragment_h264 : Client → Bytes → ℕ → Bool → W → Option (Sending W)
  fragment_h264 client [] timestamp marker w = some (pos 0, client, w)
  fragment_h264 client (header ∷ rest) timestamp marker w =
      if leb (length (header ∷ rest)) 1186
      then some (send_single codec_h264 client (header ∷ rest) timestamp marker w)
      else fragment_loop codec_h264 1186 (fu_a header) timestamp marker (suc (length rest)) rest 0
          client w

  unfoldable pub send_h264_fragmented_rtp : Client → Bytes → ℕ → Bool → W → Option (Sending W)
  send_h264_fragmented_rtp client bytes timestamp marker w =
      if ltb 307200 (length bytes)
      then some (minus_one, client, w)
      else fragment_h264 client (skip_start_code bytes) timestamp marker w

  unfoldable pub fragment_h265 : Client → Bytes → ℕ → Bool → W → Option (Sending W)
  fragment_h265 client (first ∷ second ∷ rest) timestamp marker w =
      fragment_loop codec_h265 1185 (fu_h265 first second) timestamp marker (suc (length rest)) rest
        0 client w
  fragment_h265 client _ timestamp marker w = some (pos 0, client, w)

  unfoldable pub send_h265_fragmented_rtp : Client → Bytes → ℕ → Bool → W → Option (Sending W)
  send_h265_fragmented_rtp client bytes timestamp marker w =
      let nal = skip_start_code bytes in
      if leb (length nal) 1185
      then some (send_single codec_h265 client nal timestamp marker w)
      else fragment_h265 client nal timestamp marker w
