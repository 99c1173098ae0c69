-- ===== src/RtspServer/Rtp/Delivery.antt =====
-- `send_rtp_packet` of src/modules/rtsp/rtsp_server.c on a network that takes every packet: what
-- arrives at the other end of the UDP socket.
use strero.Prelude.{
  ℕ, zero, suc, ◌+◌, ◌≤◌, ◌<◌, ◌≡◌, refl, Bool, true, false, some, List, [], ◌∷◌, ◌++◌,
  append_assoc, append-nil, length, Bytes, pos, is_negative, ap, ◌∙◌, map-some_inv,
}
use strero.RtspServer.{
  Client, Sockets, VideoCodec, TransportMode, transport_udp, client_state_playing, IsU16,
}
use strero.RtspServer.Rtp.{
  Sending, next_seq, skip_start_code, deliver_udp, deliver_over, deliver_packet,
}
use strero.RtspServer.Rtp.Dispatch.{send_rtp_packet}
use strero.RtspServer.Rtp.Fragments.{transmit}
use strero.RtspServer.Rtp.Refinement.{rtp_packets, outcome, send_rtp_packet-transmit}
use strero.RtspServer.Rtp.Receiver.{receive}
use strero.RtspServer.Rtp.RoundTrip.{receive-rtp_packets}
use strero.RtspServer.Rtp.Units.{IsNal}

-- A network that takes everything, and keeps what it was given.
abbrev pub recording : Sockets (List Bytes)
recording = record {
  sendto = λ fd to bytes log. (pos (length bytes), log ++ (bytes ∷ []));
  send = λ fd bytes log. (pos (length bytes), log ++ (bytes ∷ []));
  tls_write = λ client bytes log. (pos (length bytes), log ++ (bytes ∷ []));
}

-- The client after `n` packets.
abbrev pub after : ℕ → Client → Client
after zero client = client
after (suc n) client = after n (next_seq client)

deliver_packet-recording :
    (codec : VideoCodec) (packet : Bytes) (client : Client) (log : List Bytes)
    → client.transport_mode ≡ transport_udp
    → deliver_packet recording codec (next_seq client) packet log ≡ (true, log ++ (packet ∷ []))
unfolding deliver_packet deliver_over deliver_udp next_seq
deliver_packet-recording codec packet client log udp =
    ap (λ (m : TransportMode). deliver_over recording m codec (next_seq client) packet log) udp

next_seq-transport_mode :
    (client : Client) → (next_seq client).transport_mode ≡ client.transport_mode
unfolding next_seq
next_seq-transport_mode client = refl

pub transmit-recording :
    (codec : VideoCodec) (queue : List Bytes) (sent : ℕ) (client : Client) (log : List Bytes)
    → client.transport_mode ≡ transport_udp
    → outcome (transmit recording codec queue sent client log)
      ≡ (false, after (length queue) client, log ++ queue)
unfolding transmit
transmit-recording codec [] sent client log udp = rw (append-nil log) refl
transmit-recording codec (packet ∷ later) sent client log udp =
    rw (deliver_packet-recording codec packet client log udp) (
      rw
        (transmit-recording codec later (sent + 1) (next_seq client) (log ++ (packet ∷ []))
          (next_seq-transport_mode client ∙ udp))
        (rw (append_assoc log (packet ∷ []) later) refl))

-- What the call leaves on a network that takes everything.
pub delivered :
    (client : Client) (nal : Bytes) (timestamp : ℕ) (marker : Bool)
    → client.state ≡ client_state_playing
    → client.transport_mode ≡ transport_udp
    → is_negative client.rtp_socket_fd ≡ false
    → skip_start_code nal ≡ nal
    → 1 < length nal
    → length nal ≤ 307200
    → (sent : Sending (List Bytes)) × (send_rtp_packet recording client nal timestamp marker []
        ≡ some sent)
      × (is_negative sent.0 ≡ false)
      × (sent.2 ≡ rtp_packets client.codec client nal timestamp marker)
delivered client nal timestamp marker playing udp fd bare long size =
    let queue : List Bytes = rtp_packets client.codec client nal timestamp marker in
    let (sent, run, what) = map-some_inv outcome _ _ (
      send_rtp_packet-transmit recording client nal timestamp marker [] playing udp fd bare long
        size
      ∙ ap some (transmit-recording client.codec queue 0 client [] udp)) in
    (
      sent,
      run,
      ap (λ (o : Bool × Client × List Bytes). o.0) what,
      ap (λ (o : Bool × Client × List Bytes). o.2) what,
    )

-- What `send_rtp_packet` puts on a UDP socket that takes every datagram, for a client that plays
-- and a NAL unit of at most 307,200 bytes without a start code: the call succeeds, and a receiver
-- of RFC 6184 (H.264) or RFC 7798 (H.265) that expects the client's sequence number reads exactly
-- that NAL unit back from the datagrams. (The unit has 2 bytes or more, the forbidden bit is 0 and
-- its type is that of a single unit.)
pub send_rtp_packet-receive :
    (client : Client) (nal : Bytes) (timestamp : ℕ) (marker : Bool)
    → client.state ≡ client_state_playing
    → client.transport_mode ≡ transport_udp
    → is_negative client.rtp_socket_fd ≡ false
    → IsU16 client.rtp_seq
    → skip_start_code nal ≡ nal
    → IsNal client.codec nal
    → 1 < length nal
    → length nal ≤ 307200
    → (sent : Sending (List Bytes)) × (send_rtp_packet recording client nal timestamp marker []
        ≡ some sent)
      × (is_negative sent.0 ≡ false)
      × (receive client.codec client.rtp_seq sent.2 ≡ some nal)
send_rtp_packet-receive client nal timestamp marker playing udp fd u bare valid long size =
    let (sent, run, ok, what) =
      delivered client nal timestamp marker playing udp fd bare long size in
    (
      sent,
      run,
      ok,
      ap (receive client.codec client.rtp_seq) what
          ∙ receive-rtp_packets client.codec client nal timestamp marker u valid,
    )
