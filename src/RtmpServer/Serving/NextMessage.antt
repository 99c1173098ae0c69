-- ===== src/RtmpServer/Serving/NextMessage.antt =====
-- The next message of a connection of src/modules/rtmp_server/rtmp_server.c, from the bytes on the
-- socket to its handling.
use mathlib.Core.Option
use strero.Prelude.{
  ℕ, suc, ◌≤◌, ◌<◌, ◌≡◌, refl, ap, ◌∙◌, Bool, true, ◌&&◌, Option, some, List, ◌++◌, length, Bytes,
  ℤ, arith,
}
use strero.RtmpServer.{ChunkHeader, Connection, Wire}
use strero.RtmpServer.Socket.Streams.{Streams}
use strero.RtmpServer.Chunks.{ChunkRead, rtmp_chunk_read}
use strero.RtmpServer.Chunks.Writing.Reference.{header_bytes}
use strero.RtmpServer.Chunks.RoundTrip.{IsHeader, rtmp_chunk_read_whole}
use strero.RtmpServer.Handling.{rtmp_message_parse}
use strero.RtmpServer.Handling.Returns.{IsOpen, rtmp_message_parse_returns}
use strero.RtmpServer.Serving.{after_chunk_read, connection_loop}

loop_step :
    {W : Type 0} (wire : Wire W) (running : W → Bool) (rounds : ℕ) (conn : Connection)
    (last : List ChunkHeader) (w : W)
    → conn.thread_running ≡ true
    → running w ≡ true
    → connection_loop wire running (suc rounds) conn last w
      ≡ after_chunk_read wire
          (connection_loop wire running rounds)
          conn
          (rtmp_chunk_read wire conn last w)
unfolding connection_loop
loop_step wire running rounds conn last w alive server =
    let go : (conn.thread_running && running w) ≡ true = ground (arith, alive, server) in
    rw (go, connection_loop) refl

module _ {W : Type 0} {wire : Wire W} {fd : ℤ} (s : Streams wire fd) where
  -- While the connection and the server run, on an open socket and with a chunk size other than 0
  -- for the replies: where the next bytes are a message in one chunk with a full header, whose
  -- fields fit and which is no longer than the chunk size, and its payload can be allocated, a
  -- round of the loop hands exactly this message to `rtmp_message_parse`, that returns, and the
  -- loop goes on with the bytes behind the message and with a connection that can still reply.
  pub connection_loop-message :
      (running : W → Bool) (rounds : ℕ) (conn : Connection) (last : List ChunkHeader)
      (h : ChunkHeader) (payload rest : Bytes) (w : W)
      → conn.thread_running ≡ true
      → running w ≡ true
      → conn.socket_fd ≡ fd
      → 0 < conn.chunk_size_out
      → IsHeader h
      → length payload ≡ h.message_length
      → h.message_length ≤ conn.chunk_size_in
      → ((later : W) → wire.malloc h.message_length later ≡ true)
      → s.pending w ≡ (header_bytes h 0 ++ payload) ++ rest
      → (conn' : Connection) × (last' : List ChunkHeader) × (w1 : W) × (w2 : W)
        × (rtmp_message_parse wire conn
              (record { header = record h { fmt = 0 }; payload = payload })
              w1
            ≡ some (conn', w2))
        × (connection_loop wire running (suc rounds) conn last w
            ≡ connection_loop wire running rounds conn' last' w2)
        × IsOpen s conn'
        × (s.pending w2 ≡ rest)
  unfolding connection_loop after_chunk_read Option.bind
  connection_loop-message running rounds conn last h payload rest w alive server fd_ok out valid
        size fits memory e =
      let (w1, read, left, _) =
        rtmp_chunk_read_whole s conn last h payload rest w valid fd_ok size fits memory e in
      let (conn', w2, parsed, still, kept) =
        rtmp_message_parse_returns s conn
          (record { header = record h { fmt = 0 }; payload = payload }) w1 fd_ok out in
      (
        conn',
        (rtmp_chunk_read wire conn last w).0,
        w1,
        w2,
        parsed,
        loop_step wire running rounds conn last w alive server
            ∙ ap (after_chunk_read wire (connection_loop wire running rounds) conn)
                (ap (λ (x : ChunkRead × W). ((rtmp_chunk_read wire conn last w).0, x)) read)
            ∙ ap
                (λ (o : Option (Connection × W)). Option.bind o (λ r.
                  connection_loop wire running rounds r.0 (rtmp_chunk_read wire conn last w).0 r.1))
                parsed,
        still,
        kept ∙ left,
      )
