-- ===== src/RtmpServer/Chunks.antt =====
-- The chunks of a message: `rtmp_read_chunk_header`, `rtmp_chunk_read`, `rtmp_write_chunk_header`
-- and `rtmp_chunk_write` of src/modules/rtmp_server/rtmp_server.c.
pub mod Bounds
pub mod Writing
pub mod RoundTrip
pub mod Transfer
use strero.Prelude.{
  ℕ, zero, suc, ◌+◌, ◌-◌, ◌*◌, ◌/◌, ◌%◌, ◌≤◌, Bool, true, false, Option, none, some, List, [], ◌∷◌,
  ◌++◌, leb, ltb, ◌==◌, if◌then◌else◌, length, take, drop, set, get_or, Bytes, ℤ, pos, minus_one,
}
use strero.RtmpServer.{
  ChunkHeader, Message, Connection, Wire, be24, be32, le32, read_be24, read_be32, read_le32,
}
use strero.RtmpServer.Socket.{
  Outcome, done, returned, M, continue, ◌>>=◌, ◌>>◌, pure, rtmp_read_bytes, rtmp_write_bytes,
}

abbrev pub no_header : ChunkHeader
no_header = record {
  fmt = 0;
  chunk_stream_id = 0;
  timestamp = 0;
  message_length = 0;
  message_type_id = 0;
  message_stream_id = 0;
}

-- Whatever a read returned for an error, the caller returns `code`.
unfoldable pub or_return : {W A : Type 0} → ℤ → Outcome A × W → Outcome A × W
or_return code (done a, w) = (done a, w)
or_return code (returned _, w) = (returned code, w)

module _ {W : Type 0} (wire : Wire W) (fd : ℤ) where
  unfoldable pub read_or : ℤ → ℕ → M W Bytes
  read_or code count w = or_return code (rtmp_read_bytes wire fd count w)

  -- The chunk stream ID of one, two or three bytes.
  unfoldable pub read_stream_id : ℕ → M W ℕ
  read_stream_id id =
      if id == 0
      then (do b ← read_or minus_one 1; pure (get_or b 0 0 + 64))
      else if id == 1
      then (do b ← read_or minus_one 2; pure (get_or b 1 0 * 256 + get_or b 0 0 + 64))
      else pure id

  -- A timestamp of three bytes, or of four more behind 0xFFFFFF.
  unfoldable pub read_timestamp : ℕ → M W ℕ
  read_timestamp t =
      if t == 16777215 then (do e ← read_or minus_one 4; pure (read_be32 e 0)) else pure t

  -- The same of a delta, which is added.
  unfoldable pub read_delta : ℕ → ℕ → M W ℕ
  read_delta t delta =
      if delta == 16777215
      then (do
        e ← read_or minus_one 4
        pure (((t + delta) % 4294967296 + 4294967296 - delta + read_be32 e 0) % 4294967296))
      else pure ((t + delta) % 4294967296)

  unfoldable pub read_type_0 : ChunkHeader → M W ChunkHeader
  read_type_0 h = do
    m ← read_or minus_one 11
    t ← read_timestamp (read_be24 m 0)
    pure (record h {
      timestamp = t;
      message_length = read_be24 m 3;
      message_type_id = get_or m 6 0;
      message_stream_id = read_le32 m 7;
    })

  unfoldable pub read_type_1 : ChunkHeader → M W ChunkHeader
  read_type_1 h = do
    m ← read_or minus_one 7
    t ← read_delta h.timestamp (read_be24 m 0)
    pure
        (record h { timestamp = t; message_length = read_be24 m 3; message_type_id = get_or m 6 0 })

  unfoldable pub read_type_2 : ChunkHeader → M W ChunkHeader
  read_type_2 h = do
    m ← read_or minus_one 3
    t ← read_delta h.timestamp (read_be24 m 0)
    pure (record h { timestamp = t })

  unfoldable pub read_message_header : ChunkHeader → M W ChunkHeader
  read_message_header h =
      if h.fmt == 0
      then read_type_0 h
      else if h.fmt == 1
      then read_type_1 h
      else if h.fmt == 2
      then read_type_2 h
      else pure h

  unfoldable pub rtmp_read_chunk_header : ChunkHeader → M W ChunkHeader
  rtmp_read_chunk_header h = do
    b ← read_or (pos 0) 1
    id ← read_stream_id (get_or b 0 0 % 64)
    read_message_header (record h { fmt = get_or b 0 0 / 64 % 4; chunk_stream_id = id })

-- What a header of type 1, 2 or 3 takes from the one before in its chunk stream.
unfoldable pub inherit : ChunkHeader → ChunkHeader → ChunkHeader
inherit h last =
    if h.fmt == 1
    then record h { message_stream_id = last.message_stream_id }
    else if h.fmt == 2
    then record h {
      message_length = last.message_length;
      message_type_id = last.message_type_id;
      message_stream_id = last.message_stream_id;
    }
    else if h.fmt == 3
    then record h {
      timestamp = last.timestamp;
      message_length = last.message_length;
      message_type_id = last.message_type_id;
      message_stream_id = last.message_stream_id;
    }
    else h

-- What rtmp_chunk_read returns: 0 or -1, 1 with a message, or 2 with a part of one.
pub data ChunkRead : Type 0 where
  stopped : ℤ → ChunkRead
  complete : Message → ChunkRead
  partial : Message → ChunkRead

unfoldable pub classify : ChunkHeader → Bytes → ChunkRead
classify h payload =
    if leb h.message_length (length payload)
    then complete (record { header = h; payload = payload })
    else partial (record { header = h; payload = payload })

unfoldable pub chunk_data_size : ChunkHeader → ℕ → ℕ
chunk_data_size h chunk_size_in =
    if ltb chunk_size_in h.message_length then chunk_size_in else h.message_length

unfoldable pub after_payload : {W : Type 0} → ChunkHeader → Outcome Bytes × W → ChunkRead × W
after_payload h (done bytes, w) = (classify h bytes, w)
after_payload h (returned _, w) = (stopped minus_one, w)

-- The chunk's part of the payload. The message was cleared, so it has no payload yet.
unfoldable pub read_payload : {W : Type 0} → Wire W → Connection → ChunkHeader → W → ChunkRead × W
read_payload wire conn h w =
    if wire.malloc h.message_length w
    then after_payload h
        (rtmp_read_bytes wire conn.socket_fd (chunk_data_size h conn.chunk_size_in) w)
    else (stopped minus_one, w)

-- The headers of the 64 chunk streams are static: all connections share them.
unfoldable pub after_header :
    {W : Type 0}
    → Wire W
    → Connection
    → List ChunkHeader
    → Outcome ChunkHeader × W
    → List ChunkHeader × (ChunkRead × W)
after_header wire conn last (returned code, w) = (last, (stopped code, w))
after_header wire conn last (done h, w) =
    if ltb h.chunk_stream_id 64
    then (let h' = inherit h (get_or last h.chunk_stream_id no_header) in
        (set last h.chunk_stream_id h', read_payload wire conn h' w))
    else (last, read_payload wire conn h w)

-- It clears the message that it is given, also where that is a part that waits for more.
unfoldable pub rtmp_chunk_read :
    {W : Type 0} → Wire W → Connection → List ChunkHeader → W → List ChunkHeader × (ChunkRead × W)
rtmp_chunk_read wire conn last w =
    after_header wire conn last (rtmp_read_chunk_header wire conn.socket_fd no_header w)
