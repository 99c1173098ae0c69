-- ===== src/RtmpServer/Chunks/RoundTrip.antt =====
-- What `rtmp_read_chunk_header` and `rtmp_chunk_read` of src/modules/rtmp_server/rtmp_server.c make
-- of a message that arrives in one chunk with a full header.
use strero.Prelude.{
  ℕ, ◌+◌, ◌-◌, ◌*◌, ◌/◌, ◌%◌, ◌≤◌, ◌<◌, ◌≡◌, refl, sym, ap, subst, ◌∙◌, true, false, Bool-cases,
  inl, inr, List, [], ◌∷◌, ◌++◌, append_assoc, leb, ltb, leb-false, ltb→lt, ltb-false, ◌==◌, length,
  get_or, Bytes, ℤ, pos, minus_one, arith,
}
use strero.RtmpServer.{
  ChunkHeader, Connection, Wire, be24, be32, le32, read_be24, read_be32, read_le32,
}
use strero.RtmpServer.Socket.{done, rtmp_read_bytes}
use strero.RtmpServer.Socket.Streams.{Streams}
use strero.RtmpServer.Socket.Programs.{Reads, Reads-pure, Reads-map, Reads-bind, Reads-bytes}
use strero.RtmpServer.Chunks.{
  no_header, or_return, read_or, read_stream_id, read_timestamp, read_type_0, read_message_header,
  rtmp_read_chunk_header, inherit, complete, classify, chunk_data_size, after_payload, read_payload,
  after_header, rtmp_chunk_read,
}
use strero.RtmpServer.Chunks.Writing.{timestamp_bytes, message_header}
use strero.RtmpServer.Chunks.Writing.Reference.{basic_header, extended, header_bytes}

-- A header whose fields fit: the chunk stream IDs 0 and 1 mark the longer forms, and the forms end
-- at 65599.
abbrev pub IsHeader : ChunkHeader → Type 0
IsHeader h =
    (2 ≤ h.chunk_stream_id)
    × (h.chunk_stream_id < 65600)
    × (h.timestamp < 4294967296)
    × (h.message_length < 16777216)
    × (h.message_stream_id < 4294967296)

module _ {W : Type 0} {wire : Wire W} {fd : ℤ} (s : Streams wire fd) where
  pub Reads-read_or :
      (code : ℤ) (count : ℕ) (bytes : Bytes)
      → length bytes ≡ count
      → Reads s (read_or wire fd code count) bytes bytes
  unfolding read_or or_return
  Reads-read_or code count bytes size w rest e =
      let (w', ran, left, kept) = Reads-bytes s bytes w rest e in
      (w', ap (or_return code) (ap (λ n. rtmp_read_bytes wire fd n w) (sym size) ∙ ran), left, kept)

  Reads-timestamp :
      (t : ℕ)
      → t < 4294967296
      → Reads s (read_timestamp wire fd (read_be24 (timestamp_bytes t) 0)) (extended t) t
  unfolding read_timestamp timestamp_bytes
  Reads-timestamp t fits = elim (Bool-cases (leb 16777215 t)) [
    | inl long ↦ rw long (
        Reads-map s (read_or wire fd minus_one 4) (λ e. read_be32 e 0) (be32 t) (be32 t) t
          (Reads-read_or minus_one 4 (be32 t) refl) (omega arith))
    | inr short ↦
        let small : read_be24 (be24 t) 0 ≡ t = omega (arith, leb-false 16777215 t short) in
        let not_escape : (t == 16777215) ≡ false = ground (arith, short) in
        rw short (rw small (rw not_escape (Reads-pure s t)))
  ]

  timestamp_bytes_three :
      (t : ℕ) → (a : ℕ) × (b : ℕ) × (c : ℕ) × (timestamp_bytes t ≡ a ∷ b ∷ c ∷ [])
  unfolding timestamp_bytes
  timestamp_bytes_three t = elim (Bool-cases (leb 16777215 t)) [
    | inl long ↦ (255, 255, 255, rw long)
    | inr short ↦ (t / 65536 % 256, t / 256 % 256, t % 256, rw short)
  ]

  Reads-type_0 :
      (h g : ChunkHeader)
      → IsHeader h
      → Reads s (read_type_0 wire fd g) (message_header h 0 ++ extended h.timestamp) (record g {
        timestamp = h.timestamp;
        message_length = h.message_length;
        message_type_id = h.message_type_id;
        message_stream_id = h.message_stream_id;
      })
  unfolding read_type_0 message_header
  Reads-type_0 h g (_, _, time, len, stream) =
      let (a, b, c, e) = timestamp_bytes_three h.timestamp in
      let behind : Bytes =
        be24 h.message_length ++ (h.message_type_id ∷ le32 h.message_stream_id) in
      let escaped : Reads s (read_timestamp wire fd ((a * 256 + b) * 256 + c))
          (extended h.timestamp) h.timestamp =
        subst
          (λ l. Reads s (read_timestamp wire fd (read_be24 l 0)) (extended h.timestamp) h.timestamp)
          e (Reads-timestamp h.timestamp time) in
      let length_back : read_be24 (be24 h.message_length) 0 ≡ h.message_length = omega arith in
      let stream_back : read_le32 (le32 h.message_stream_id) 0 ≡ h.message_stream_id =
        omega arith in
      rw e (
        Reads-bind s (read_or wire fd minus_one 11) _ (a ∷ b ∷ c ∷ behind) (extended h.timestamp)
          (a ∷ b ∷ c ∷ behind) _ (Reads-read_or minus_one 11 (a ∷ b ∷ c ∷ behind) refl)
          (Reads-map s (read_timestamp wire fd ((a * 256 + b) * 256 + c)) _ (extended h.timestamp)
            h.timestamp _ escaped
            (λ i. record g {
              timestamp = h.timestamp;
              message_length = length_back i;
              message_type_id = h.message_type_id;
              message_stream_id = stream_back i;
            })))

  -- The ID behind the two low values, and its bytes.
  Reads-stream_id :
      (id : ℕ)
      → 2 ≤ id
      → id < 65600
      → (low : ℕ) × (more : Bytes) × (basic_header id 0 ≡ low ∷ more)
        × (low < 64)
        × Reads s (read_stream_id wire fd low) more id
  unfolding read_stream_id
  Reads-stream_id id two fits = elim (Bool-cases (ltb id 64)) [
    | inl one_byte ↦
        let small : id < 64 = ltb→lt id 64 one_byte in
        let not_0 : (id == 0) ≡ false = ground arith in
        let not_1 : (id == 1) ≡ false = ground arith in
        (
          id,
          [],
          rw one_byte (ap (λ n. n ∷ []) (omega arith)),
          small,
          rw (not_0, not_1) (Reads-pure s id),
        )
    | inr more_bytes ↦ elim (Bool-cases (ltb id 320)) [
      | inl two_bytes ↦ (
        0,
        (id - 64) ∷ [],
        rw (more_bytes, two_bytes) refl,
        omega arith,
        Reads-map s (read_or wire fd minus_one 1) (λ b. get_or b 0 0 + 64) ((id - 64) ∷ [])
            ((id - 64) ∷ []) id (Reads-read_or minus_one 1 ((id - 64) ∷ []) refl)
            (omega (arith, ltb-false id 64 more_bytes)),
      )
      | inr three_bytes ↦
          let more : Bytes = ((id - 64) % 256) ∷ ((id - 64) / 256 % 256) ∷ [] in
          (
            1,
            more,
            rw (more_bytes, three_bytes) refl,
            omega arith,
            Reads-map s (read_or wire fd minus_one 2) (λ b. get_or b 1 0 * 256 + get_or b 0 0 + 64)
                more more id (Reads-read_or minus_one 2 more refl)
                (omega (arith, ltb-false id 64 more_bytes)),
          )
    ]
  ]

  pub Reads-chunk_header :
      (h : ChunkHeader)
      → IsHeader h
      → Reads s (rtmp_read_chunk_header wire fd no_header) (header_bytes h 0) (record h { fmt = 0 })
  unfolding rtmp_read_chunk_header read_message_header
  Reads-chunk_header h valid =
      let (low, more, e, small, reads) = Reads-stream_id h.chunk_stream_id valid.0 valid.1 in
      let low_back : low % 64 ≡ low = omega arith in
      let type_back : low / 64 % 4 ≡ 0 = omega arith in
      let message : Bytes = message_header h 0 ++ extended h.timestamp in
      rw e (
        Reads-bind s (read_or wire fd (pos 0) 1) _ (low ∷ []) (more ++ message) (low ∷ []) _
          (Reads-read_or (pos 0) 1 (low ∷ []) refl)
          (rw (low_back, type_back)
            (Reads-bind s (read_stream_id wire fd low) _ more message h.chunk_stream_id _ reads
              (Reads-type_0 h _ valid))))

  read_payload_lem :
      (conn : Connection) (h : ChunkHeader) (payload rest : Bytes) (w : W)
      → conn.socket_fd ≡ fd
      → length payload ≡ h.message_length
      → h.message_length ≤ conn.chunk_size_in
      → wire.malloc h.message_length w ≡ true
      → s.pending w ≡ payload ++ rest
      → (w' : W) × (read_payload wire conn h w
          ≡ (complete (record { header = h; payload = payload }), w'))
        × (s.pending w' ≡ rest)
        × (s.written w' ≡ s.written w)
  unfolding read_payload after_payload classify chunk_data_size
  read_payload_lem conn h payload rest w fd_ok size fits memory e =
      let (w', ran, left, kept) = Reads-bytes s payload w rest e in
      let data_size : chunk_data_size h conn.chunk_size_in ≡ length payload = ground arith in
      let whole : leb h.message_length (length payload) ≡ true = ground arith in
      (
        w',
        rw (memory, fd_ok, data_size, read_payload) (ap (after_payload h) ran ∙ rw whole refl),
        left,
        kept,
      )

  -- A message whose header fields fit their places and that is no longer than the chunk size of
  -- the reader: when the bytes of one chunk with a full header come next on the socket and the
  -- payload can be allocated, `rtmp_chunk_read` returns 1 with exactly this header and payload,
  -- takes exactly these bytes and sends nothing, for chunk stream IDs of every length and
  -- timestamps of three and of four bytes.
  pub rtmp_chunk_read_whole :
      (conn : Connection) (last : List ChunkHeader) (h : ChunkHeader) (payload rest : Bytes) (w : W)
      → IsHeader h
      → conn.socket_fd ≡ fd
      → length payload ≡ h.message_length
      → h.message_length ≤ conn.chunk_size_in
      → ((later : W) → wire.malloc h.message_length later ≡ true)
      → s.pending w ≡ (header_bytes h 0 ++ payload) ++ rest
      → (w' : W) × ((rtmp_chunk_read wire conn last w).1
          ≡ (complete (record { header = record h { fmt = 0 }; payload = payload }), w'))
        × (s.pending w' ≡ rest)
        × (s.written w' ≡ s.written w)
  unfolding rtmp_chunk_read after_header inherit
  rtmp_chunk_read_whole conn last h payload rest w valid fd_ok size fits memory e =
      let (w1, ran, left, kept) =
        Reads-chunk_header h valid w (payload ++ rest)
          (e ∙ append_assoc (header_bytes h 0) payload rest) in
      let (w2, ran2, left2, kept2) =
        read_payload_lem conn (record h { fmt = 0 }) payload rest w1 fd_ok size fits (memory w1)
          left in
      let header_read : rtmp_read_chunk_header wire conn.socket_fd no_header w
          ≡ (done (record h { fmt = 0 }), w1) =
        rw fd_ok ran in
      (
        w2,
        rw (header_read, rtmp_chunk_read)
            (elim (Bool-cases (ltb h.chunk_stream_id 64)) [
              | inl low ↦ rw low ran2
              | inr high ↦ rw high ran2
            ]),
        left2,
        kept2 ∙ kept,
      )
