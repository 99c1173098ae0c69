-- ===== src/RtmpServer/Chunks/Writing.antt =====
-- `rtmp_write_chunk_header` and `rtmp_chunk_write` of src/modules/rtmp_server/rtmp_server.c.
pub mod Reference
use strero.Prelude.{
  ℕ, zero, suc, ◌+◌, ◌-◌, ◌*◌, ◌/◌, ◌%◌, Bool, true, false, ◌||◌, Option, none, some, List, [], ◌∷◌,
  ◌++◌, leb, ltb, ◌==◌, if◌then◌else◌, length, take, drop, Bytes, ℤ, minus_one,
}
use strero.RtmpServer.{ChunkHeader, Message, Connection, Wire, be24, be32, le32}
use strero.RtmpServer.Socket.{
  Outcome, done, returned, M, continue, ◌>>=◌, ◌>>◌, pure, rtmp_write_bytes,
}

-- The three bytes of a timestamp, 0xFFFFFF where it stands behind the header.
unfoldable pub timestamp_bytes : ℕ → Bytes
timestamp_bytes t = if leb 16777215 t then 255 ∷ 255 ∷ 255 ∷ [] else be24 t

-- The message header of each type.
unfoldable pub message_header : ChunkHeader → ℕ → Bytes
message_header h fmt =
    if fmt == 0
    then timestamp_bytes h.timestamp
      ++ (be24 h.message_length ++ (h.message_type_id ∷ le32 h.message_stream_id))
    else if fmt == 1
    then timestamp_bytes h.timestamp ++ (be24 h.message_length ++ (h.message_type_id ∷ []))
    else timestamp_bytes h.timestamp

module _ {W : Type 0} (wire : Wire W) (fd : ℤ) where
  unfoldable pub write_basic_header : ℕ → ℕ → M W (Unit {0})
  write_basic_header id fmt =
      if ltb id 64
      then rtmp_write_bytes wire fd ((fmt * 64 + id) ∷ [])
      else if ltb id 320
      then (do
        rtmp_write_bytes wire fd ((fmt * 64) ∷ [])
        rtmp_write_bytes wire fd ((id - 64) ∷ []))
      else (do
        rtmp_write_bytes wire fd ((fmt * 64 + 1) ∷ [])
        rtmp_write_bytes wire fd (((id - 64) % 256) ∷ ((id - 64) / 256 % 256) ∷ []))

  unfoldable pub write_extended : ℕ → M W (Unit {0})
  write_extended t = if leb 16777215 t then rtmp_write_bytes wire fd (be32 t) else pure tt

  unfoldable pub write_message_header : ChunkHeader → ℕ → M W (Unit {0})
  write_message_header h fmt =
      if fmt == 3
      then pure tt
      else (do rtmp_write_bytes wire fd (message_header h fmt); write_extended h.timestamp)

  unfoldable pub rtmp_write_chunk_header : ChunkHeader → ℕ → M W (Unit {0})
  rtmp_write_chunk_header h fmt = do
    write_basic_header h.chunk_stream_id fmt
    write_message_header h fmt

  -- A chunk: type 0 for the first one, type 3 for the others.
  unfoldable pub write_chunk : ChunkHeader → ℕ → Bytes → M W (Unit {0})
  write_chunk h fmt piece = do rtmp_write_chunk_header h fmt; rtmp_write_bytes wire fd piece

-- The rest of the loop, unless the chunk failed.
unfoldable pub after_chunk :
    {W : Type 0}
    → (W → Option (Outcome (Unit {0}) × W))
    → Outcome (Unit {0}) × W
    → Option (Outcome (Unit {0}) × W)
after_chunk later (done _, w) = later w
after_chunk later (returned code, w) = some (returned code, w)

module _ {W : Type 0} (wire : Wire W) (fd : ℤ) (chunk_size_out : ℕ) where
  -- The loop until `bytes_written` is the message's length: `left` bytes are not written yet, and
  -- `bytes` is the payload from there on. `none` is a call without a result: a read behind the end of
  -- the payload, or a loop that does not end, as it does for chunks of no bytes.
  unfoldable pub write_chunks :
      ℕ → ChunkHeader → ℕ → ℕ → Bytes → W → Option (Outcome (Unit {0}) × W)
  write_chunks rounds h fmt zero bytes w = some (done tt, w)
  write_chunks zero h fmt (suc left) bytes w = none
  write_chunks (suc rounds) h fmt (suc left) bytes w =
      let data_size = if ltb chunk_size_out (suc left) then chunk_size_out else suc left in
      elim (leb data_size (length bytes)) [
        | false ↦ none
        | true ↦
            after_chunk (write_chunks rounds h 3 (suc left - data_size) (drop data_size bytes))
              (write_chunk wire fd h fmt (take data_size bytes) w)
      ]

-- `payload` is `none` for NULL.
unfoldable pub rtmp_chunk_write :
    {W : Type 0}
    → Wire W
    → Connection
    → ChunkHeader
    → Option Bytes
    → W
    → Option (Outcome (Unit {0}) × W)
rtmp_chunk_write wire conn h none w = some (returned minus_one, w)
rtmp_chunk_write wire conn h (some payload) w =
    if h.message_length == 0
    then some (returned minus_one, w)
    else write_chunks wire conn.socket_fd conn.chunk_size_out h.message_length h 0 h.message_length
        payload w
