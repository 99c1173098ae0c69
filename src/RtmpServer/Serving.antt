-- ===== src/RtmpServer/Serving.antt =====
-- The life of a connection: `rtmp_connection_handle` of src/modules/rtmp_server/rtmp_server.c.
pub mod NextMessage
mod Examples
use mathlib.Core.Option
use strero.Prelude.{
  ℕ, zero, suc, Bool, true, false, ◌&&◌, Option, none, some, List, if◌then◌else◌, ℤ, pos, minus_one,
}
use strero.RtmpServer.{ChunkHeader, Message, Connection, Wire}
use strero.RtmpServer.Socket.{Outcome, done, returned}
use strero.RtmpServer.Chunks.{ChunkRead, stopped, complete, partial, rtmp_chunk_read}
use strero.RtmpServer.Handling.{rtmp_message_parse}
use strero.RtmpServer.Handshake.{rtmp_handshake_process}

-- A connection, the headers of the chunk streams and what lies outside.
abbrev pub Serving : Type 0 → Type 0
Serving W = Connection × (List ChunkHeader × W)

-- A round, after its chunk is read: an error or the end of the stream ends the loop, and a part of
-- a message waits for more.
unfoldable pub after_chunk_read :
    {W : Type 0}
    → Wire W
    → (Connection → List ChunkHeader → W → Option (Serving W))
    → Connection
    → List ChunkHeader × (ChunkRead × W)
    → Option (Serving W)
after_chunk_read wire later conn (last, (stopped _, w)) = some (conn, (last, w))
after_chunk_read wire later conn (last, (partial _, w)) = later conn last w
after_chunk_read wire later conn (last, (complete m, w)) =
    Option.bind (rtmp_message_parse wire conn m w) (λ r. later r.0 last r.1)

-- The loop, over this many rounds at most. `running` is whether the server still runs.
unfoldable pub connection_loop :
    {W : Type 0} → Wire W → (W → Bool) → ℕ → Connection → List ChunkHeader → W → Option (Serving W)
connection_loop wire running zero conn last w = some (conn, (last, w))
connection_loop wire running (suc rounds) conn last w = elim (conn.thread_running && running w) [
  | false ↦ some (conn, (last, w))
  | true ↦
      after_chunk_read wire (connection_loop wire running rounds) conn
        (rtmp_chunk_read wire conn last w)
]

-- The result is -1 where the handshake fails, and 0 otherwise.
unfoldable pub after_handshake :
    {W : Type 0}
    → Wire W
    → (W → Bool)
    → ℕ
    → List ChunkHeader
    → Outcome (Unit {0}) × (Connection × W)
    → Option (ℤ × Serving W)
after_handshake wire running rounds last (returned _, (conn, w)) =
    some (minus_one, (conn, (last, w)))
after_handshake wire running rounds last (done _, (conn, w)) =
    Option.map (λ s. (pos 0, s)) (connection_loop wire running rounds conn last w)

unfoldable pub rtmp_connection_handle :
    {W : Type 0}
    → Wire W
    → (W → Bool)
    → ℕ
    → Connection
    → List ChunkHeader
    → W
    → Option (ℤ × Serving W)
rtmp_connection_handle wire running rounds conn last w =
    after_handshake wire running rounds last (rtmp_handshake_process wire conn.socket_fd (conn, w))
