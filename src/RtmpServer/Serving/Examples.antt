-- ===== src/RtmpServer/Serving/Examples.antt =====
-- Messages, connections and the handshake of src/modules/rtmp_server/rtmp_server.c at concrete
-- inputs.
use mathlib.Core.Option
use strero.Prelude.{
  c_string, has_prefix, str_eq, ◌<◌, ◌≡◌, ◌↔◌, ◌⊎◌, refl, true, false, Option, none, some, List, [],
  ◌∷◌, ◌++◌, length, replicate, Bytes, codes, pos, arith,
}
use strero.RtmpServer.{ChunkHeader, Message, Connection}
use strero.RtmpServer.Socket.{done, rtmp_write_bytes, write_loop, after_send}
use strero.RtmpServer.Chunks.Writing.{
  message_header, timestamp_bytes, write_extended, write_message_header, write_basic_header,
  rtmp_write_chunk_header, write_chunk, after_chunk, write_chunks, rtmp_chunk_write,
}
use strero.RtmpServer.Chunks.Writing.Reference.{header_bytes}
use strero.RtmpServer.Amf.{
  amf_decode_value, amf_decode_string, decode_scalar, decode_number, amf_encode_string,
  amf_encode_number, amf_encode_null, amf_encode_object_start, amf_encode_object_end,
}
use strero.RtmpServer.Amf.RoundTrip.{encode_value}
use strero.RtmpServer.Commands.{
  Command, text_of, number_of, decode_command_object, decode_arguments, rtmp_command_parse,
}
use strero.RtmpServer.Commands.RoundTrip.{encode_all, encode_command}
use strero.RtmpServer.Sending.{rtmp_send_publish_status, status_payload}
use strero.RtmpServer.Handling.{
  first_text, reply, handle_publish, rtmp_command_handle, handle_parsed, copy_256,
  rtmp_message_parse,
}
use strero.RtmpServer.Handling.Publishing.{Publishes, rtmp_message_parse-publishing}
use strero.RtmpServer.Handling.Returns.{IsOpen}
use strero.RtmpServer.Serving.{connection_loop}
use strero.RtmpServer.Serving.NextMessage.{connection_loop-message}
use strero.RtmpServer.Handshake.{rtmp_handshake_process}
use strero.RtmpServer.Handshake.Echo.{IsQuiet, shaken, rtmp_handshake_process_echo}
use strero.RtmpServer.Connections.{ServerState, accept_error, accepted_client, rtmp_server_destroy}
use strero.RtmpServer.Connections.Counting.{
  IsCounted, accepted, ended, run, run-IsCounted, Joins, rtmp_server_destroy_blocks,
}
use strero.RtmpServer.Examples.{Pipe, pipe, open_pipe, client, video, video_payload, publish}

abbrev publish_message : Message
publish_message = record {
  header = record video { message_type_id = 20; message_length = length (encode_command publish) };
  payload = encode_command publish;
}

-- What the client was sent.
abbrev sent_by : Option (Connection × Pipe) → Pipe
sent_by none = ([], [])
sent_by (some r) = r.1

published :
    rtmp_message_parse pipe client publish_message ([], [])
    ≡ some (
      record client { stream_key = codes "key"; publishing = true },
      sent_by (rtmp_message_parse pipe client publish_message ([], [])),
    )
unfolding rtmp_message_parse handle_parsed rtmp_command_parse amf_decode_value amf_decode_string
    decode_scalar decode_number text_of c_string number_of decode_command_object decode_arguments
    has_prefix rtmp_command_handle str_eq handle_publish first_text copy_256 reply encode_command
    encode_value encode_all amf_encode_string amf_encode_number amf_encode_null
    amf_encode_object_start amf_encode_object_end rtmp_send_publish_status status_payload
    rtmp_chunk_write write_chunks after_chunk write_chunk rtmp_write_chunk_header write_basic_header
    write_message_header write_extended message_header timestamp_bytes rtmp_write_bytes write_loop
    after_send Option.bind
published = refl

rtmp_message_parse-publishing_example :
    (command : Command) × (key : Bytes) × (publish_message.header.message_type_id ≡ 20)
    × (rtmp_command_parse publish_message.payload ≡ some command)
    × Publishes command key
    × (codes "key" ≡ copy_256 key)
rtmp_message_parse-publishing_example =
    rtmp_message_parse-publishing pipe client
      (record client { stream_key = codes "key"; publishing = true }) publish_message ([], [])
      (sent_by (rtmp_message_parse pipe client publish_message ([], []))) published refl refl

connection_loop-message_example :
    (conn' : Connection) × (last' : List ChunkHeader) × (w1 : Pipe) × (w2 : Pipe)
    × (rtmp_message_parse pipe client (record { header = video; payload = video_payload }) w1
        ≡ some (conn', w2))
    × (connection_loop pipe
          (λ w. true)
          3
          client
          []
          ((header_bytes video 0 ++ video_payload) ++ (195 ∷ []), [])
        ≡ connection_loop pipe (λ w. true) 2 conn' last' w2)
    × IsOpen open_pipe conn'
    × (w2.0 ≡ 195 ∷ [])
connection_loop-message_example =
    connection_loop-message open_pipe (λ w. true) 2 client [] video video_payload (195 ∷ [])
      ((header_bytes video 0 ++ video_payload) ++ (195 ∷ []), []) refl refl refl (omega arith)
      (omega arith) refl (omega arith) (λ later. refl) refl

pipe-IsQuiet : IsQuiet open_pipe
pipe-IsQuiet w = (refl, refl, refl, refl)

abbrev c1 : Bytes
c1 = replicate 1536 7

abbrev c2 : Bytes
c2 = replicate 1536 9

rtmp_handshake_process_echo_example :
    (s1 : Bytes) × (w' : Pipe) × (rtmp_handshake_process pipe
        (pos 7)
        (client, (3 ∷ (c1 ++ (c2 ++ (2 ∷ []))), []))
      ≡ (done tt, (shaken open_pipe client c1 c2, w')))
    × (length s1 ≡ 1536)
    × (w'.0 ≡ 2 ∷ [])
    × (w'.1 ≡ [] ++ ((3 ∷ []) ++ (s1 ++ c1)))
rtmp_handshake_process_echo_example =
    rtmp_handshake_process_echo open_pipe client c1 c2 (2 ∷ []) (3 ∷ (c1 ++ (c2 ++ (2 ∷ []))), [])
      pipe-IsQuiet refl refl refl

abbrev server : ServerState
server = record {
  server_socket = pos 5;
  running = true;
  connections = (268500992, client) ∷ [];
  mutex_held = false;
  max_connections = 2;
  current_connections = 1;
}

server-IsCounted : IsCounted server
server-IsCounted = record { free = refl; counted = refl; limited = omega arith }

run-IsCounted_example :
    (after : ServerState) × (run
        (accepted (pos 8) (some 268501248) true
          ∷ accepted (pos 9) (some 268501504) true
          ∷ ended 268500992
          ∷ accepted (pos 9) (some 268501504) false
          ∷ ended 5
          ∷ [])
        server
      ≡ some after)
    × IsCounted after
run-IsCounted_example =
    run-IsCounted
      (accepted (pos 8) (some 268501248) true
        ∷ accepted (pos 9) (some 268501504) true
        ∷ ended 268500992
        ∷ accepted (pos 9) (some 268501504) false
        ∷ ended 5
        ∷ [])
      server server-IsCounted

rtmp_server_destroy_blocks_example :
    (rtmp_server_destroy none (some server) ≡ none)
    × ((rtmp_server_destroy (some accept_error) (some server) ≡ none)
        ↔ (0 < length server.connections))
    × ((rtmp_server_destroy (some (accepted_client (pos 8) (some 268501248) true)) (some server)
          ≡ none)
        ↔ ((0 < length server.connections) ⊎ Joins (some 268501248) true server))
rtmp_server_destroy_blocks_example =
    rtmp_server_destroy_blocks server (pos 8) (some 268501248) true refl
