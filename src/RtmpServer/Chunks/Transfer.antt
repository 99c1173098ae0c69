-- ===== src/RtmpServer/Chunks/Transfer.antt =====
-- A message from `rtmp_chunk_write` through the socket to `rtmp_chunk_read`, both of
-- src/modules/rtmp_server/rtmp_server.c.
use strero.Prelude.{
  ℕ, zero, suc, ◌≤◌, ◌<◌, ◌≡◌, sym, ap, ◌∙◌, true, some, List, [], ◌∷◌, ◌++◌, append-nil, length,
  take_short, Bytes, ℤ, arith,
}
use strero.RtmpServer.{ChunkHeader, Connection, Wire}
use strero.RtmpServer.Socket.{done}
use strero.RtmpServer.Socket.Streams.{Streams}
use strero.RtmpServer.Chunks.{complete, rtmp_chunk_read}
use strero.RtmpServer.Chunks.Writing.{rtmp_chunk_write}
use strero.RtmpServer.Chunks.Writing.Reference.{
  header_bytes, chunk_header, header_bytes-first, drop_all, chunk_bytes, rtmp_chunk_write_lem,
}
use strero.RtmpServer.Chunks.RoundTrip.{IsHeader, rtmp_chunk_read_whole}

chunk_bytes_single :
    (rounds size : ℕ) (h : ChunkHeader) (fmt : ℕ) (bytes : Bytes)
    → 0 < length bytes
    → length bytes ≤ rounds
    → length bytes ≤ size
    → chunk_bytes rounds size h fmt bytes ≡ chunk_header h fmt ++ bytes
unfolding chunk_bytes
chunk_bytes_single rounds size h fmt [] some_bytes r fits = elim some_bytes [ ]
chunk_bytes_single zero size h fmt (b ∷ bytes) some_bytes r fits = elim r [ ]
chunk_bytes_single (suc rounds) size h fmt (b ∷ bytes) some_bytes r fits =
    rw (drop_all size (b ∷ bytes) fits, take_short size (b ∷ bytes) fits, chunk_bytes)
      (append-nil _)

module _ {W V : Type 0} {wire : Wire W} {fd : ℤ} (s : Streams wire fd) {wire' : Wire V} {fd' : ℤ}
    (s' : Streams wire' fd') where
  -- A message with fields that fit and a payload that is not empty and no longer than the chunk
  -- size on either side: on an open socket `rtmp_chunk_write` returns 0, and on a socket where the
  -- bytes that it sends come next `rtmp_chunk_read` returns 1 with the same header (of type 0) and
  -- payload and takes exactly these bytes, whatever headers came before, when the payload can be
  -- allocated.
  pub rtmp_chunk_read-rtmp_chunk_write :
      (from to : Connection) (last : List ChunkHeader) (h : ChunkHeader) (payload rest : Bytes)
      (w : W) (v : V)
      → IsHeader h
      → length payload ≡ h.message_length
      → 0 < h.message_length
      → h.message_length ≤ from.chunk_size_out
      → h.message_length ≤ to.chunk_size_in
      → from.socket_fd ≡ fd
      → to.socket_fd ≡ fd'
      → ((later : V) → wire'.malloc h.message_length later ≡ true)
      → s'.pending v ≡ chunk_bytes (length payload) from.chunk_size_out h 0 payload ++ rest
      → (w' : W) × (v' : V) × (rtmp_chunk_write wire from h (some payload) w ≡ some (done tt, w'))
        × (s.written w'
            ≡ s.written w ++ chunk_bytes (length payload) from.chunk_size_out h 0 payload)
        × ((rtmp_chunk_read wire' to last v).1
            ≡ (complete (record { header = record h { fmt = 0 }; payload = payload }), v'))
        × (s'.pending v' ≡ rest)
  rtmp_chunk_read-rtmp_chunk_write from to last h payload rest w v valid size long out into fd_ok
        fd_ok' memory e =
      let (w', ran, kept, wrote) =
        rtmp_chunk_write_lem s from h payload w fd_ok (omega arith) long size in
      let single : chunk_bytes (length payload) from.chunk_size_out h 0 payload
          ≡ header_bytes h 0 ++ payload =
        chunk_bytes_single (length payload) from.chunk_size_out h 0 payload (omega arith)
          (omega arith) (omega arith)
        ∙ ap (λ l. l ++ payload) (sym (header_bytes-first h)) in
      let (v', got, left, _) =
        rtmp_chunk_read_whole s' to last h payload rest v valid fd_ok' size into memory
          (e ∙ ap (λ l. l ++ rest) single) in
      (w', v', ran, wrote, got, left)
