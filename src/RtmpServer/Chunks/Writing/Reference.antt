-- ===== src/RtmpServer/Chunks/Writing/Reference.antt =====
-- The bytes of a message in chunks, as the RTMP specification lays them out, and that
-- `rtmp_chunk_write` of src/modules/rtmp_server/rtmp_server.c sends them.
use strero.Prelude.{
  ℕ, zero, suc, ◌+◌, ◌-◌, ◌*◌, ◌/◌, ◌%◌, ◌^◌, ◌≤◌, ◌<◌, ◌≡◌, refl, sym, ap, ◌∙◌, Bool-cases, inl,
  inr, true, false, some, [], ◌∷◌, ◌++◌, append-nil, append_assoc, leb, ltb, ◌==◌, if◌then◌else◌,
  length, take, drop, length-drop, take_short, ltb-false, Bytes, ℤ, arith,
}
use strero.RtmpServer.{ChunkHeader, Connection, Wire, be32}
use strero.RtmpServer.Socket.{done}
use strero.RtmpServer.Socket.Streams.{Streams}
use strero.RtmpServer.Socket.Programs.{Writes, Writes-pure, Writes-then, Writes-bytes, Writes-if}
use strero.RtmpServer.Chunks.Writing.{
  message_header, timestamp_bytes, write_basic_header, write_extended, write_message_header,
  rtmp_write_chunk_header, write_chunk, after_chunk, write_chunks, rtmp_chunk_write,
}

abbrev pub basic_header : ℕ → ℕ → Bytes
basic_header id fmt =
    if ltb id 64
    then (fmt * 64 + id) ∷ []
    else if ltb id 320
    then (fmt * 64) ∷ (id - 64) ∷ []
    else (fmt * 64 + 1) ∷ ((id - 64) % 256) ∷ ((id - 64) / 256 % 256) ∷ []

abbrev pub extended : ℕ → Bytes
extended t = if leb 16777215 t then be32 t else []

abbrev pub header_bytes : ChunkHeader → ℕ → Bytes
header_bytes h fmt =
    basic_header h.chunk_stream_id fmt
    ++ (if fmt == 3 then [] else message_header h fmt ++ extended h.timestamp)

-- The bytes of a number, the highest first, and from the i-th one on, the lowest first.
unfoldable pub big_endian : ℕ → ℕ → Bytes
big_endian zero n = []
big_endian (suc k) n = (n / 256 ^ k % 256) ∷ big_endian k n

unfoldable pub little_endian : ℕ → ℕ → ℕ → Bytes
little_endian i zero n = []
little_endian i (suc k) n = (n / 256 ^ i % 256) ∷ little_endian (suc i) k n

-- The full header: timestamp, length, type and stream, and the timestamp again where it does not fit
-- its three bytes.
unfoldable pub full_header : ChunkHeader → Bytes
full_header h =
    big_endian 3 (if ltb h.timestamp 16777215 then h.timestamp else 16777215)
    ++ (big_endian 3 h.message_length
        ++ (h.message_type_id
            ∷ (little_endian 0 4 h.message_stream_id
                ++ (if ltb h.timestamp 16777215 then [] else big_endian 4 h.timestamp))))

-- A chunk's header: a full one, or one of type 3 with the basic header alone. (The specification has
-- an extended timestamp in those of type 3 too.)
abbrev pub chunk_header : ChunkHeader → ℕ → Bytes
chunk_header h fmt = basic_header h.chunk_stream_id fmt ++ (if fmt == 3 then [] else full_header h)

last_byte : (n : ℕ) → n / 1 % 256 ≡ n % 256
last_byte n = omega arith

message_header-full : (h : ChunkHeader) → message_header h 0 ++ extended h.timestamp ≡ full_header h
unfolding message_header timestamp_bytes full_header big_endian little_endian
message_header-full h =
    rw (last_byte h.message_length, last_byte h.message_stream_id)
      (elim (Bool-cases (ltb h.timestamp 16777215)) [
        | inl short ↦ ground (arith, last_byte h.timestamp)
        | inr long ↦ ground (arith, last_byte h.timestamp)
      ])

pub header_bytes-first : (h : ChunkHeader) → header_bytes h 0 ≡ chunk_header h 0
header_bytes-first h = ap (λ l. basic_header h.chunk_stream_id 0 ++ l) (message_header-full h)

-- The chunks of a payload, in `rounds` or fewer, the first with a header of type `fmt`.
unfoldable pub chunk_bytes : ℕ → ℕ → ChunkHeader → ℕ → Bytes → Bytes
chunk_bytes rounds size h fmt [] = []
chunk_bytes zero size h fmt (b ∷ bytes) = []
chunk_bytes (suc rounds) size h fmt (b ∷ bytes) =
    (chunk_header h fmt ++ take size (b ∷ bytes))
    ++ chunk_bytes rounds size h 3 (drop size (b ∷ bytes))

pub drop_all : (n : ℕ) (xs : Bytes) → length xs ≤ n → drop n xs ≡ []
drop_all zero [] h = refl
drop_all zero (x ∷ xs) h = elim h [ ]
drop_all (suc n) [] h = refl
drop_all (suc n) (x ∷ xs) h = drop_all n xs (omega arith)

-- The size of a chunk: the payload has it, and cutting by it is cutting by the chunk size.
one_chunk :
    (size left : ℕ) (bytes : Bytes)
    → left ≡ length bytes
    → let data_size = if ltb size left then size else left in
      (leb data_size (length bytes) ≡ true)
      × (take data_size bytes ≡ take size bytes)
      × (drop data_size bytes ≡ drop size bytes)
      × (left - data_size ≡ length (drop size bytes))
one_chunk size left bytes whole = elim (Bool-cases (ltb size left)) [
  | inl more ↦ rw more (ground arith, refl, refl, omega (arith, length-drop size bytes))
  | inr last ↦
      let few : length bytes ≤ size = omega (arith, ltb-false size left last) in
      rw last (
        ground arith,
        take_short left bytes (omega arith) ∙ sym (take_short size bytes few),
        drop_all left bytes (omega arith) ∙ sym (drop_all size bytes few),
        omega (arith, length-drop size bytes),
      )
]

module _ {W : Type 0} {wire : Wire W} {fd : ℤ} (s : Streams wire fd) where
  Writes-basic_header :
      (id fmt : ℕ) → Writes s (write_basic_header wire fd id fmt) (basic_header id fmt)
  unfolding write_basic_header
  Writes-basic_header id fmt = Writes-if s (ltb id 64) _ _ _ _ (Writes-bytes s _) (
      Writes-if s (ltb id 320) _ _ _ _ (Writes-then s _ _ _ _ (Writes-bytes s _) (Writes-bytes s _))
        (Writes-then s _ _ _ _ (Writes-bytes s _) (Writes-bytes s _)))

  Writes-extended : (t : ℕ) → Writes s (write_extended wire fd t) (extended t)
  unfolding write_extended
  Writes-extended t = Writes-if s (leb 16777215 t) _ _ _ _ (Writes-bytes s _) (Writes-pure s)

  Writes-message_header :
      (h : ChunkHeader) (fmt : ℕ)
      → Writes s
          (write_message_header wire fd h fmt)
          (if fmt == 3 then [] else message_header h fmt ++ extended h.timestamp)
  unfolding write_message_header
  Writes-message_header h fmt =
      Writes-if s (fmt == 3) _ _ _ _ (Writes-pure s)
        (Writes-then s _ _ _ _ (Writes-bytes s _) (Writes-extended h.timestamp))

  pub Writes-chunk :
      (h : ChunkHeader) (fmt : ℕ) (piece : Bytes)
      → Writes s (write_chunk wire fd h fmt piece) (header_bytes h fmt ++ piece)
  unfolding write_chunk rtmp_write_chunk_header
  Writes-chunk h fmt piece =
      Writes-then s _ _ _ _
        (Writes-then s _ _ _ _ (Writes-basic_header h.chunk_stream_id fmt)
          (Writes-message_header h fmt))
        (Writes-bytes s piece)

  write_chunks_lem :
      (rounds size : ℕ) (h : ChunkHeader) (fmt left : ℕ) (bytes : Bytes) (w : W)
      → 0 < size
      → header_bytes h fmt ≡ chunk_header h fmt
      → left ≡ length bytes
      → left ≤ rounds
      → (w' : W) × (write_chunks wire fd size rounds h fmt left bytes w ≡ some (done tt, w'))
        × (s.pending w' ≡ s.pending w)
        × (s.written w' ≡ s.written w ++ chunk_bytes rounds size h fmt bytes)
  unfolding write_chunks chunk_bytes after_chunk
  write_chunks_lem rounds size h fmt zero [] w some_bytes header whole h' =
      (w, refl, refl, sym (append-nil _))
  write_chunks_lem rounds size h fmt zero (b ∷ bytes) w some_bytes header whole h' = ground arith
  write_chunks_lem rounds size h fmt (suc left) [] w some_bytes header whole h' = ground arith
  write_chunks_lem zero size h fmt (suc left) (b ∷ bytes) w some_bytes header whole h' = elim h' [ ]
  write_chunks_lem (suc rounds) size h fmt (suc left) (b ∷ bytes) w some_bytes header whole h' =
      let (within, taken, dropped, rest) = one_chunk size (suc left) (b ∷ bytes) whole in
      let (w1, ran, kept, wrote) = Writes-chunk h fmt (take size (b ∷ bytes)) w in
      let (w2, ran2, kept2, wrote2) =
        write_chunks_lem rounds size h 3 (suc left - data_size) (drop size (b ∷ bytes)) w1
          some_bytes refl rest (ground arith) in
      (
        w2,
        rw (within, taken, dropped, write_chunks) (ap (after_chunk _) ran ∙ ran2),
        kept2 ∙ kept,
        wrote2
            ∙ ap (λ l. l ++ chunk_bytes rounds size h 3 (drop size (b ∷ bytes)))
                (wrote ∙ ap (λ l. s.written w ++ (l ++ take size (b ∷ bytes))) header)
            ∙ append_assoc (s.written w) _ _,
      )
    where
      data_size : ℕ
      data_size = if ltb size (suc left) then size else suc left

  -- On an open socket `rtmp_chunk_write` ends for every message with a payload of its length and
  -- every chunk size but 0. It returns 0, and the peer gets the payload cut into chunks of that
  -- size, the first with a full header (timestamp, length, type, stream and, from 0xFFFFFF on, the
  -- extended timestamp) and each later one with a basic header of type 3 alone.
  pub rtmp_chunk_write_lem :
      (conn : Connection) (h : ChunkHeader) (payload : Bytes) (w : W)
      → conn.socket_fd ≡ fd
      → 0 < conn.chunk_size_out
      → 0 < h.message_length
      → length payload ≡ h.message_length
      → (w' : W) × (rtmp_chunk_write wire conn h (some payload) w ≡ some (done tt, w'))
        × (s.pending w' ≡ s.pending w)
        × (s.written w'
            ≡ s.written w ++ chunk_bytes (length payload) conn.chunk_size_out h 0 payload)
  unfolding rtmp_chunk_write
  rtmp_chunk_write_lem conn h payload w fd_ok out len whole =
      let full : (h.message_length == 0) ≡ false = ground arith in
      let (w', ran, kept, wrote) =
        write_chunks_lem h.message_length conn.chunk_size_out h 0 h.message_length payload w out
          (header_bytes-first h) (sym whole) (omega arith) in
      (
        w',
        rw (full, fd_ok) ran,
        kept,
        wrote ∙ ap (λ n. s.written w ++ chunk_bytes n conn.chunk_size_out h 0 payload) (sym whole),
      )
