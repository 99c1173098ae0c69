-- ===== src/RtspServer/Frames/Arrival.antt =====
-- A whole frame on a UDP socket that takes every datagram, and what a receiver reads in it:
-- `send_frame_to_client` of src/modules/rtsp/rtsp_server.c.
use mathlib.Core.Option
use strero.Prelude.{
  ℕ, zero, suc, ◌+◌, ◌%◌, ◌≤◌, ◌<◌, ◌≡◌, refl, sym, ap, ◌∙◌, Bool, true, false, some, map-some_inv,
  List, [], ◌∷◌, ◌++◌, append-nil, append_assoc, ltb, ◌==◌, length, Bytes, is_negative, All, arith,
}
use strero.RtspServer.{Client, VideoCodec, transport_udp, client_state_playing, is_playing, IsU16}
use strero.RtspServer.Rtp.{next_seq, skip_start_code}
use strero.RtspServer.Rtp.Dispatch.{send_rtp_packet}
use strero.RtspServer.Rtp.Refinement.{rtp_packets, outcome, send_rtp_packet-transmit}
use strero.RtspServer.Rtp.Receiver.{receive}
use strero.RtspServer.Rtp.Units.{IsNal}
use strero.RtspServer.Rtp.RoundTrip.{receive-rtp_packets}
use strero.RtspServer.Rtp.Delivery.{recording, after, transmit-recording}
use strero.RtspServer.Frames.{is_last, send_units, send_frame_to_client}
use strero.RtspServer.Frames.AnnexB.{frame_of, IsStream, send_frame_to_client-frame_of}

abbrev pub flatten : List (List Bytes) → List Bytes
flatten [] = []
flatten (group ∷ groups) = group ++ flatten groups

-- Groups of datagrams that carry one NAL unit each, with the sequence numbers counting on from
-- `seq` through all of them.
abbrev pub Carries : VideoCodec → ℕ → List (List Bytes) → List Bytes → Type 0
Carries codec seq [] [] = Unit
Carries codec seq [] (nal ∷ nals) = ⊥
Carries codec seq (group ∷ groups) [] = ⊥
Carries codec seq (group ∷ groups) (nal ∷ nals) =
    (receive codec seq group ≡ some nal) × Carries codec ((seq + length group) % 65536) groups nals

-- A unit that can be sent.
abbrev pub IsSendable : VideoCodec → Bytes → Type 0
IsSendable codec nal =
    (skip_start_code nal ≡ nal) × IsNal codec nal × (1 < length nal) × (length nal ≤ 307200)

-- The client after `n` packets.
abbrev moved : ℕ → Client → Client
moved n client = record client { rtp_seq = (client.rtp_seq + n) % 65536 }

after-moved : (n : ℕ) (client : Client) → IsU16 client.rtp_seq → after n client ≡ moved n client
unfolding next_seq
after-moved zero client u = ap (λ s. record client { rtp_seq = s }) (omega arith)
after-moved (suc n) client u =
    after-moved n (next_seq client) (omega arith)
    ∙ ap (λ s. record client { rtp_seq = s }) (omega arith)

-- A client that plays over UDP on an open RTP socket.
abbrev pub PlaysOverUdp : Client → Type 0
PlaysOverUdp client =
    (client.state ≡ client_state_playing)
    × (client.transport_mode ≡ transport_udp)
    × (is_negative client.rtp_socket_fd ≡ false)
    × IsU16 client.rtp_seq

send_one :
    (client : Client) (nal : Bytes) (timestamp : ℕ) (marker : Bool) (log : List Bytes)
    → PlaysOverUdp client
    → IsSendable client.codec nal
    → let queue = rtp_packets client.codec client nal timestamp marker in
      (result : _) × (send_rtp_packet recording client nal timestamp marker log
        ≡ some (result, moved (length queue) client, log ++ queue))
send_one client nal timestamp marker log (playing, udp, fd, u) (bare, valid, long, size) =
    let queue : List Bytes = rtp_packets client.codec client nal timestamp marker in
    let (sent, run, what) = map-some_inv outcome _ _ (
      send_rtp_packet-transmit recording client nal timestamp marker log playing udp fd bare long
        size
      ∙ ap some (transmit-recording client.codec queue 0 client log udp)) in
    (
      sent.0,
      run
          ∙ ap (λ (o : Bool × Client × List Bytes). some (sent.0, o.1, o.2)) what
          ∙ ap (λ (c : Client). some (sent.0, c, log ++ queue))
              (after-moved (length queue) client u),
    )

send_units-Carries :
    (timestamp : ℕ) (nals : List Bytes) (client : Client) (log : List Bytes)
    → PlaysOverUdp client
    → All (IsSendable client.codec) nals
    → (sent : Client × List Bytes) × (groups : List (List Bytes)) × (send_units recording timestamp
          nals client log
        ≡ some sent)
      × (sent.1 ≡ log ++ flatten groups)
      × Carries client.codec client.rtp_seq groups nals
unfolding send_units Option.bind
send_units-Carries timestamp [] client log plays sendable =
    ((client, log), [], refl, sym (append-nil log), tt)
send_units-Carries timestamp (nal ∷ nals) client log (playing, udp, fd, u) (one, later) =
    let queue : List Bytes = rtp_packets client.codec client nal timestamp (is_last nals) in
    let (result, run) =
      send_one client nal timestamp (is_last nals) log (playing, udp, fd, u) one in
    let full : (length nal == 0) ≡ false = ground (arith, one.2) in
    let (sent, groups, ran, logged, carries) =
      send_units-Carries timestamp nals (moved (length queue) client) (log ++ queue)
        (playing, udp, fd, omega arith) later in
    (
      sent,
      queue ∷ groups,
      rw (full, send_units) (rw run ran),
      logged ∙ append_assoc log queue (flatten groups),
      (receive-rtp_packets client.codec client nal timestamp (is_last nals) u one.1, carries),
    )

-- A frame of 1 to 32 NAL units, each behind a start code of four bytes, with no start code
-- inside, at its start or over its end, of 2 to 307200 bytes and with a valid header, sent to a
-- client that plays over an open UDP socket which takes every datagram: `send_frame_to_client`
-- returns, and its datagrams fall into one group for each unit, in the order of the units, from
-- which a receiver that expects the sequence numbers to count on (modulo 2 ^ 16) from the client's,
-- through all groups, reads exactly that unit.
pub send_frame_to_client-Carries :
    (timestamp : ℕ) (client : Client) (nals : List Bytes)
    → PlaysOverUdp client
    → 0 < length nals
    → length nals ≤ 32
    → IsStream nals
    → All (IsSendable client.codec) nals
    → (sent : Client × List Bytes) × (groups : List (List Bytes)) × (send_frame_to_client recording
          timestamp client
          (frame_of nals)
          []
        ≡ some sent)
      × (sent.1 ≡ flatten groups)
      × Carries client.codec client.rtp_seq groups nals
send_frame_to_client-Carries timestamp client nals plays some_units fits stream sendable =
    let (sent, groups, ran, logged, carries) =
      send_units-Carries timestamp nals client [] plays sendable in
    let playing : is_playing client.state ≡ true = ap is_playing plays.0 in
    let few : ltb 32 (length nals) ≡ false = ground arith in
    (
      sent,
      groups,
      send_frame_to_client-frame_of recording timestamp client nals [] playing some_units stream
          ∙ rw few ran,
      logged,
      carries,
    )
