-- ===== src/RtmpServer/Commands/Replies.antt =====
-- What a client reads in the replies of src/modules/rtmp_server/rtmp_server.c to its commands.
use mathlib.Core.Option
use strero.Prelude.{
  ◌≤◌, none, Option, List, length, drop, ◌++◌, ◌||◌, ℤ, str_eq, Bool-cases, inl, inr,
  drop-append_length, ℕ, ◌<◌, ◌≡◌, refl, ap, subst, ◌∙◌, Bool, true, false, some, [], ◌∷◌, Bytes,
  codes, Lacks, if◌then◌else◌, arith,
}
use strero.RtmpServer.Amf.{
  Value, number, null, object, end, amf_encode_string, amf_encode_number, amf_encode_null,
  amf_encode_object_start, amf_encode_object_end,
}
use strero.RtmpServer.Amf.RoundTrip.{encode_value}
use strero.RtmpServer.Commands.{Command, rtmp_command_parse}
use strero.RtmpServer.Commands.RoundTrip.{
  encode_all, encode_command, rtmp_command_parse-encode_command,
}
use strero.RtmpServer.{ChunkHeader, Message, Connection, Wire}
use strero.RtmpServer.Socket.{done}
use strero.RtmpServer.Socket.Streams.{Streams}
use strero.RtmpServer.Chunks.{complete, rtmp_chunk_read}
use strero.RtmpServer.Chunks.Transfer.{rtmp_chunk_read-rtmp_chunk_write}
use strero.RtmpServer.Chunks.Writing.{rtmp_chunk_write}
use strero.RtmpServer.Chunks.Writing.Reference.{chunk_bytes, rtmp_chunk_write_lem}
use strero.RtmpServer.Handling.{Handled, reply, rtmp_command_handle, handle_publish, handle_play}
use strero.RtmpServer.Sending.{
  header_of, rtmp_send_connect_result, rtmp_send_create_stream_result, rtmp_send_publish_status,
  rtmp_send_play_status, connect_payload, create_stream_payload, status_payload,
}

-- The command with this name, transaction and object, and one argument.
abbrev pub command_of : Bytes → ℕ → Value → Value → Command
command_of name id command_object argument = record {
  command_name = name;
  transaction_id = id;
  command_object = command_object;
  arguments = argument ∷ [];
}

connect_payload_lem :
    (id : ℕ) (success : Bool)
    → connect_payload id success
      ≡ encode_command
          (command_of (if success then codes "_result" else codes "_error") id (object end) null)
unfolding connect_payload encode_command encode_all encode_value amf_encode_string amf_encode_number
    amf_encode_null amf_encode_object_start amf_encode_object_end
connect_payload_lem id true = refl
connect_payload_lem id false = refl

create_stream_payload_lem :
    (id stream : ℕ)
    → create_stream_payload id stream
      ≡ encode_command (command_of (codes "_result") id null (number stream))
unfolding create_stream_payload encode_command encode_all encode_value amf_encode_string
    amf_encode_number amf_encode_null
create_stream_payload_lem id stream = refl

status_payload_lem :
    status_payload ≡ encode_command (command_of (codes "onStatus") 0 null (object end))
unfolding status_payload encode_command encode_all encode_value amf_encode_string amf_encode_number
    amf_encode_null amf_encode_object_start amf_encode_object_end
status_payload_lem = refl

no_zero_result : Lacks 0 (codes "_result")
no_zero_result = (refl, (refl, (refl, (refl, (refl, (refl, (refl, tt)))))))

no_zero_error : Lacks 0 (codes "_error")
no_zero_error = (refl, (refl, (refl, (refl, (refl, (refl, tt))))))

no_zero_status : Lacks 0 (codes "onStatus")
no_zero_status = (refl, (refl, (refl, (refl, (refl, (refl, (refl, (refl, tt))))))))

connect_parsed :
    (id : ℕ)
    → id < 18446744073709551616
    → rtmp_command_parse (connect_payload id true)
      ≡ some (command_of (codes "_result") id (object end) null)
connect_parsed id h =
    ap rtmp_command_parse (connect_payload_lem id true)
    ∙ rtmp_command_parse-encode_command _ (no_zero_result, omega arith, h, tt, (tt, tt))

create_stream_parsed :
    (id stream : ℕ)
    → id < 18446744073709551616
    → stream < 18446744073709551616
    → rtmp_command_parse (create_stream_payload id stream)
      ≡ some (command_of (codes "_result") id null (number stream))
create_stream_parsed id stream h h' =
    ap rtmp_command_parse (create_stream_payload_lem id stream)
    ∙ rtmp_command_parse-encode_command _ (no_zero_result, omega arith, h, tt, (h', tt))

status_parsed :
    rtmp_command_parse status_payload ≡ some (command_of (codes "onStatus") 0 null (object end))
status_parsed =
    ap rtmp_command_parse status_payload_lem
    ∙ rtmp_command_parse-encode_command _ (no_zero_status, omega arith, omega arith, tt, (tt, tt))

-- The command that answers a command. The stream of `createStream` is 1.0; the status of `publish`
-- and `play` is in no answer.
unfoldable pub answer_to : Command → Option Command
answer_to command =
    if str_eq command.command_name (codes "connect")
    then some (command_of (codes "_result") command.transaction_id (object end) null)
    else if str_eq command.command_name (codes "createStream")
    then some
        (command_of (codes "_result") command.transaction_id null (number 4607182418800017408))
    else if str_eq command.command_name (codes "publish")
        || str_eq command.command_name (codes "play")
    then some (command_of (codes "onStatus") 0 null (object end))
    else none

-- The outside after a command.
abbrev pub world_after : {W : Type 0} → Handled W → W → W
world_after none w = w
world_after (some r) w = r.1.1

module _ {W V : Type 0} {wire : Wire W} {fd : ℤ} (s : Streams wire fd) {wire' : Wire V} {fd' : ℤ}
    (s' : Streams wire' fd') (conn to : Connection) (last : List ChunkHeader) (w : W) (v : V)
    (rest : Bytes) where
  -- The bytes that a call sends, with `rest` behind them, are read as one message of type 20 with
  -- this command.
  abbrev Delivers : Handled W → Command → Type 0
  Delivers handled reply_command =
      (conn' : Connection) × (w' : W) × (m : Message) × (v' : V) × (handled
        ≡ some (conn', (done tt, w')))
      × ((rtmp_chunk_read wire' to last v).1 ≡ (complete m, v'))
      × (m.header.message_type_id ≡ 20)
      × (rtmp_command_parse m.payload ≡ some reply_command)
      × (s'.pending v' ≡ rest)

  abbrev Comes : Handled W → Type 0
  Comes handled =
      s'.pending v ≡ drop (length (s.written w)) (s.written (world_after handled w)) ++ rest

  module _ (fd_ok : conn.socket_fd ≡ fd) (out : 29 ≤ conn.chunk_size_out)
      (fd_ok' : to.socket_fd ≡ fd') (into : 29 ≤ to.chunk_size_in)
      (memory : (n : ℕ) (later : V) → wire'.malloc n later ≡ true) where
    delivered :
        (conn' : Connection) (stream : ℕ) (payload : Bytes) (reply_command : Command)
        → stream < 2
        → 0 < length payload
        → length payload ≤ 29
        → rtmp_command_parse payload ≡ some reply_command
        → Comes (
            reply conn'
              (rtmp_chunk_write wire conn (header_of 3 20 stream 0 payload) (some payload) w))
        → Delivers
            (reply conn'
              (rtmp_chunk_write wire conn (header_of 3 20 stream 0 payload) (some payload) w))
            reply_command
    unfolding reply Option.map
    delivered conn' stream payload reply_command one_of long short parsed comes =
        let (w', ran, _, wrote) =
          rtmp_chunk_write_lem s conn (header_of 3 20 stream 0 payload) payload w fd_ok
            (omega arith) long refl in
        let sent : s'.pending v
            ≡ chunk_bytes (length payload) conn.chunk_size_out (header_of 3 20 stream 0 payload) 0
                payload
              ++ rest =
          comes
          ∙ ap (λ r. drop (length (s.written w)) (s.written (world_after r w)) ++ rest)
              (ap (Option.map (λ o. (conn', o))) ran)
          ∙ ap (λ l. drop (length (s.written w)) l ++ rest) wrote
          ∙ ap (λ l. l ++ rest) (drop-append_length (s.written w) _) in
        let (w2, v', ran2, _, got, left) =
          rtmp_chunk_read-rtmp_chunk_write s s' conn to last (header_of 3 20 stream 0 payload)
            payload rest w v (omega arith) refl long (omega arith) (omega arith) fd_ok fd_ok'
            (memory _) sent in
        (conn', w', _, v', rw ran refl, got, refl, parsed, left)

    delivered-connect :
        (conn' : Connection) (id : ℕ)
        → id < 18446744073709551616
        → Comes (reply conn' (rtmp_send_connect_result wire conn id true w))
        → Delivers
            (reply conn' (rtmp_send_connect_result wire conn id true w))
            (command_of (codes "_result") id (object end) null)
    unfolding rtmp_send_connect_result connect_payload amf_encode_string amf_encode_number
        amf_encode_null amf_encode_object_start amf_encode_object_end
    delivered-connect conn' id h comes =
        delivered conn' 0 (connect_payload id true) _ (omega arith) (omega arith) (omega arith)
          (connect_parsed id h) comes

    delivered-create_stream :
        (id : ℕ)
        → id < 18446744073709551616
        → Comes (reply conn (rtmp_send_create_stream_result wire conn id 4607182418800017408 w))
        → Delivers
            (reply conn (rtmp_send_create_stream_result wire conn id 4607182418800017408 w))
            (command_of (codes "_result") id null (number 4607182418800017408))
    unfolding rtmp_send_create_stream_result create_stream_payload amf_encode_string
        amf_encode_number amf_encode_null
    delivered-create_stream id h comes =
        delivered conn 0 (create_stream_payload id 4607182418800017408) _ (omega arith)
          (omega arith) (omega arith) (create_stream_parsed id 4607182418800017408 h (omega arith))
          comes

    delivered-status :
        (conn' : Connection)
        → Comes (reply conn' (rtmp_send_publish_status wire conn [] [] w))
        → Delivers
            (reply conn' (rtmp_send_publish_status wire conn [] [] w))
            (command_of (codes "onStatus") 0 null (object end))
    unfolding rtmp_send_publish_status status_payload amf_encode_string amf_encode_number
        amf_encode_null amf_encode_object_start amf_encode_object_end
    delivered-status conn' comes =
        delivered conn' 1 status_payload _ (omega arith) (omega arith) (omega arith) status_parsed
          comes

    delivered-publish :
        (key : Option Bytes)
        → Comes (handle_publish wire conn key w)
        → Delivers
            (handle_publish wire conn key w)
            (command_of (codes "onStatus") 0 null (object end))
    unfolding handle_publish rtmp_send_publish_status
    delivered-publish none comes = delivered-status conn comes
    delivered-publish (some key) comes = delivered-status _ comes

    delivered-play :
        (key : Option Bytes)
        → Comes (handle_play wire conn key w)
        → Delivers (handle_play wire conn key w) (command_of (codes "onStatus") 0 null (object end))
    unfolding handle_play rtmp_send_play_status rtmp_send_publish_status
    delivered-play none comes = delivered-status conn comes
    delivered-play (some key) comes = delivered-status _ comes

    -- The server handles a command on an open socket, with chunks of 29 bytes or more on both sides:
    -- if the command is `connect`, `createStream`, `publish` or `play`, the call returns 0, and a
    -- peer that can allocate memory and reads the bytes that were sent with `rtmp_chunk_read` gets
    -- one message of type 20 and stands behind it, and `rtmp_command_parse` reads the answer in it:
    -- to `connect` "_result" with the transaction of the request, to `createStream` "_result" with
    -- the transaction of the request and the stream 1 as its one argument, and to `publish` and
    -- `play` "onStatus" with transaction 0 and an information object that is empty, whatever the
    -- status is. (A transaction is a double of 64 bits.)
    pub rtmp_command_handle_replies :
        (command answer : Command)
        → command.transaction_id < 18446744073709551616
        → answer_to command ≡ some answer
        → Comes (rtmp_command_handle wire conn command w)
        → Delivers (rtmp_command_handle wire conn command w) answer
    unfolding rtmp_command_handle answer_to
    rtmp_command_handle_replies command answer id answered comes =
        elim (Bool-cases (str_eq command.command_name (codes "connect"))) [
          | inl connects ↦
              let same : command_of (codes "_result") command.transaction_id (object end) null
                  ≡ answer =
                ground (arith, connects) in
              subst (Delivers (rtmp_command_handle wire conn command w)) same (
                rw (connects, rtmp_command_handle)
                  (delivered-connect _ command.transaction_id id
                    (rw (connects, rtmp_command_handle) at comes)))
          | inr no_connect ↦
              elim (Bool-cases (str_eq command.command_name (codes "createStream"))) [
                | inl creates ↦
                    let same : command_of (codes "_result") command.transaction_id null
                          (number 4607182418800017408)
                        ≡ answer =
                      ground (arith, no_connect, creates) in
                    subst (Delivers (rtmp_command_handle wire conn command w)) same (
                      rw (no_connect, creates, rtmp_command_handle)
                        (delivered-create_stream command.transaction_id id
                          (rw (no_connect, creates, rtmp_command_handle) at comes)))
                | inr no_create ↦
                    elim (Bool-cases (str_eq command.command_name (codes "publish"))) [
                      | inl publishes ↦
                          let same : command_of (codes "onStatus") 0 null (object end) ≡ answer =
                            ground (arith, no_connect, no_create, publishes) in
                          subst (Delivers (rtmp_command_handle wire conn command w)) same (
                            rw (no_connect, no_create, publishes, rtmp_command_handle)
                              (delivered-publish _ (
                                rw (no_connect, no_create, publishes, rtmp_command_handle) at
                                  comes)))
                      | inr no_publish ↦
                          elim (Bool-cases (str_eq command.command_name (codes "play"))) [
                            | inl plays ↦
                                let same : command_of (codes "onStatus") 0 null (object end)
                                    ≡ answer =
                                  ground (arith, no_connect, no_create, no_publish, plays) in
                                subst (Delivers (rtmp_command_handle wire conn command w)) same (
                                  rw (no_connect, no_create, no_publish, plays, rtmp_command_handle)
                                    (delivered-play _ (
                                      rw
                                        (
                                          no_connect, no_create, no_publish, plays,
                                          rtmp_command_handle,
                                        )
                                        at comes)))
                            | inr no_play ↦
                                ground (arith, no_connect, no_create, no_publish, no_play)
                          ]
                    ]
              ]
        ]
