-- ===== src/RtmpServer/Examples.antt =====
-- The RTMP server of src/modules/rtmp_server/rtmp_server.c at concrete inputs.
use strero.Prelude.{
  drop, str_eq, take, ℕ, zero, suc, ◌≤◌, ◌<◌, ◌≡◌, refl, true, false, some, [], ◌∷◌, ◌++◌, length,
  Bytes, codes, ℤ, pos, arith,
}
use strero.RtmpServer.{connected, ChunkHeader, Connection, Received, received, Wire}
use strero.RtmpServer.Socket.{done}
use strero.RtmpServer.Socket.Streams.{Streams}
use strero.RtmpServer.Chunks.{complete, rtmp_chunk_read}
use strero.RtmpServer.Chunks.Bounds.{IsBounded, Fits, rtmp_chunk_read-Fits}
use strero.RtmpServer.Chunks.Writing.{rtmp_chunk_write}
use strero.RtmpServer.Chunks.Writing.Reference.{
  full_header, big_endian, little_endian, chunk_bytes, rtmp_chunk_write_lem,
}
use strero.RtmpServer.{Message}
use strero.RtmpServer.Handling.{rtmp_command_handle}
use strero.RtmpServer.Chunks.Transfer.{rtmp_chunk_read-rtmp_chunk_write}
use strero.RtmpServer.Amf.{number, text, null, object, end, property}
use strero.RtmpServer.Commands.{Command, rtmp_command_parse}
use strero.RtmpServer.Commands.RoundTrip.{encode_command, rtmp_command_parse-encode_command}
use strero.RtmpServer.Commands.Replies.{
  command_of, world_after, answer_to, rtmp_command_handle_replies,
}

-- What is to come, and what was sent.
abbrev pub Pipe : Type 0
Pipe = Bytes × Bytes

-- A socket that moves one byte in a call.
abbrev pub recv_one : ℤ → ℕ → Pipe → Received × Pipe
recv_one fd zero w = (received [], w)
recv_one fd (suc n) ([], sent) = (received [], ([], sent))
recv_one fd (suc n) (b ∷ bytes, sent) = (received (b ∷ []), (bytes, sent))

abbrev pub send_one : ℤ → Bytes → Pipe → ℤ × Pipe
send_one fd [] w = (pos 0, w)
send_one fd (b ∷ bytes) (pending, sent) = (pos 1, (pending, sent ++ (b ∷ [])))

abbrev pub pipe : Wire Pipe
pipe = record {
  recv = recv_one;
  send = send_one;
  malloc = λ n w. true;
  time = λ w. (1700000000, w);
  rand = λ w. (4, w);
}

pub recv_one_some :
    (n : ℕ) (w : Pipe)
    → 0 < n
    → 0 < length w.0
    → (b : ℕ) × (bs : Bytes) × (w' : Pipe) × (recv_one (pos 7) n w ≡ (received (b ∷ bs), w'))
      × (suc (length bs) ≤ n)
      × (w.0 ≡ (b ∷ bs) ++ w'.0)
      × (w'.1 ≡ w.1)
recv_one_some zero w h some_bytes = elim h [ ]
recv_one_some (suc n) ([], sent) h some_bytes = elim some_bytes [ ]
recv_one_some (suc n) (b ∷ bytes, sent) h some_bytes =
    (b, [], (bytes, sent), refl, omega arith, refl, refl)

pub send_one_some :
    (bytes : Bytes) (w : Pipe)
    → 0 < length bytes
    → (n : ℕ) × (w' : Pipe) × (send_one (pos 7) bytes w ≡ (pos (suc n), w'))
      × (suc n ≤ length bytes)
      × (w'.1 ≡ w.1 ++ take (suc n) bytes)
      × (w'.0 ≡ w.0)
send_one_some [] w h = elim h [ ]
send_one_some (b ∷ bytes) (pending, sent) h =
    (0, (pending, sent ++ (b ∷ [])), refl, omega arith, refl, refl)

abbrev pub open_pipe : Streams pipe (pos 7)
open_pipe = record {
  pending = λ w. w.0;
  written = λ w. w.1;
  recv_some = recv_one_some;
  send_some = send_one_some;
}

abbrev pub client : Connection
client = record {
  socket_fd = pos 7;
  state = connected;
  c0_s0_version = 3;
  c1_s1_data = [];
  c2_s2_data = [];
  chunk_size_in = 4;
  chunk_size_out = 4;
  window_ack_size = 2500000;
  app_name = codes "live";
  stream_key = [];
  publishing = false;
  thread_running = true;
}

-- A message on a chunk stream of two bytes, with an extended timestamp.
abbrev pub video : ChunkHeader
video = record {
  fmt = 0;
  chunk_stream_id = 70;
  timestamp = 16777300;
  message_length = 3;
  message_type_id = 9;
  message_stream_id = 1;
}

abbrev pub video_payload : Bytes
video_payload = 23 ∷ 1 ∷ 0 ∷ []

rtmp_chunk_read-rtmp_chunk_write_example :
    (w' : Pipe) × (v' : Pipe) × (rtmp_chunk_write pipe client video (some video_payload) ([], [])
      ≡ some (done tt, w'))
    × (w'.1 ≡ [] ++ chunk_bytes 3 4 video 0 video_payload)
    × ((rtmp_chunk_read pipe client [] (chunk_bytes 3 4 video 0 video_payload ++ (195 ∷ []), [])).1
        ≡ (complete (record { header = video; payload = video_payload }), v'))
    × (v'.0 ≡ 195 ∷ [])
rtmp_chunk_read-rtmp_chunk_write_example =
    rtmp_chunk_read-rtmp_chunk_write open_pipe open_pipe client client [] video video_payload
      (195 ∷ []) ([], []) (chunk_bytes 3 4 video 0 video_payload ++ (195 ∷ []), []) (omega arith)
      refl (omega arith) (omega arith) (omega arith) refl refl (λ later. refl) refl

pipe-IsBounded : IsBounded pipe
pipe-IsBounded fd zero w = omega arith
pipe-IsBounded fd (suc n) ([], sent) = omega arith
pipe-IsBounded fd (suc n) (b ∷ bytes, sent) = omega arith

-- Type 3 on a chunk stream without an earlier header.
rtmp_chunk_read-Fits_example : Fits 4 (rtmp_chunk_read pipe client [] (195 ∷ 1 ∷ 2 ∷ [], [])).1.0
rtmp_chunk_read-Fits_example =
    rtmp_chunk_read-Fits pipe pipe-IsBounded client [] (195 ∷ 1 ∷ 2 ∷ [], [])

abbrev long_payload : Bytes
long_payload = 1 ∷ 2 ∷ 3 ∷ 4 ∷ 5 ∷ 6 ∷ []

rtmp_chunk_write_lem_example :
    (w' : Pipe) × (rtmp_chunk_write pipe client
        (record video { message_length = 6 })
        (some long_payload)
        ([], [])
      ≡ some (done tt, w'))
    × (w'.0 ≡ [])
    × (w'.1 ≡ [] ++ chunk_bytes 6 4 (record video { message_length = 6 }) 0 long_payload)
rtmp_chunk_write_lem_example =
    rtmp_chunk_write_lem open_pipe client (record video { message_length = 6 }) long_payload
      ([], []) refl (omega arith) (omega arith) refl

two_chunks :
    chunk_bytes 6 4 (record video { message_length = 6; timestamp = 5 }) 0 long_payload
    ≡ 0 ∷ 6 ∷ 0 ∷ 0 ∷ 5 ∷ 0 ∷ 0 ∷ 6 ∷ 9 ∷ 1 ∷ 0 ∷ 0 ∷ 0 ∷ 1 ∷ 2 ∷ 3 ∷ 4 ∷ 192 ∷ 6 ∷ 5 ∷ 6 ∷ []
unfolding chunk_bytes full_header big_endian little_endian
two_chunks = refl

-- The double 2.0 is the transaction.
abbrev pub publish : Command
publish = record {
  command_name = codes "publish";
  transaction_id = 4611686018427387904;
  command_object = object (property (codes "app") (text (codes "live")) end);
  arguments = text (codes "key") ∷ null ∷ [];
}

rtmp_command_parse-encode_command_example :
    rtmp_command_parse (encode_command publish) ≡ some publish
rtmp_command_parse-encode_command_example = rtmp_command_parse-encode_command publish (
  (refl, (refl, (refl, (refl, (refl, (refl, (refl, tt))))))),
  omega arith,
  omega arith,
  omega arith,
  (omega arith, (tt, tt)),
)

-- A createStream command with the transaction 5, answered in chunks of 128 bytes.
abbrev create_stream : Command
create_stream = record {
  command_name = codes "createStream";
  transaction_id = 5;
  command_object = null;
  arguments = [];
}

abbrev roomy : Connection
roomy = record client { chunk_size_in = 128; chunk_size_out = 128 }

abbrev answered : Pipe
answered = (
  drop 0 (world_after (rtmp_command_handle pipe roomy create_stream ([], [])) ([], [])).1
      ++ (195 ∷ []),
  [],
)

answer_to-create_stream :
    answer_to create_stream
    ≡ some (command_of (codes "_result") 5 null (number 4607182418800017408))
unfolding answer_to str_eq
answer_to-create_stream = refl

rtmp_command_handle_replies_example :
    (conn' : Connection) × (w' : Pipe) × (m : Message) × (v' : Pipe) × (rtmp_command_handle pipe
        roomy create_stream
        ([], [])
      ≡ some (conn', (done tt, w')))
    × ((rtmp_chunk_read pipe roomy [] answered).1 ≡ (complete m, v'))
    × (m.header.message_type_id ≡ 20)
    × (rtmp_command_parse m.payload
        ≡ some (command_of (codes "_result") 5 null (number 4607182418800017408)))
    × (v'.0 ≡ 195 ∷ [])
rtmp_command_handle_replies_example =
    rtmp_command_handle_replies open_pipe open_pipe roomy roomy [] ([], []) answered (195 ∷ []) refl
      (omega arith) refl (omega arith) (λ n later. refl) create_stream
      (command_of (codes "_result") 5 null (number 4607182418800017408)) (omega arith)
      answer_to-create_stream refl
