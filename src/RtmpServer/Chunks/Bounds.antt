-- ===== src/RtmpServer/Chunks/Bounds.antt =====
-- How many bytes `rtmp_chunk_read` of src/modules/rtmp_server/rtmp_server.c puts in a payload.
use strero.Prelude.{
  ℕ, zero, suc, ◌-◌, ◌≤◌, ◌<◌, ◌≡◌, refl, ◌∙◌, true, false, Bool-cases, inl, inr, List, [], ◌∷◌,
  ◌++◌, leb, ltb, ltb→lt, ltb-false, length, length-append, Bytes, ℤ, arith,
}
use strero.RtmpServer.{ChunkHeader, Connection, Received, received, recv_failed, Wire}
use strero.RtmpServer.Socket.{
  Outcome, done, returned, continue, pure, after_recv, read_loop, rtmp_read_bytes,
}
use strero.RtmpServer.Chunks.{
  no_header, rtmp_read_chunk_header, ChunkRead, stopped, complete, partial, classify,
  chunk_data_size, after_payload, read_payload, after_header, rtmp_chunk_read,
}

abbrev pub AtMost : ℕ → Received → Type 0
AtMost n (received bytes) = length bytes ≤ n
AtMost n recv_failed = Unit

-- POSIX: recv returns no more bytes than it is asked for.
abbrev pub IsBounded : {W : Type 0} → Wire W → Type 0
IsBounded {W} wire = (fd : ℤ) (n : ℕ) (w : W) → AtMost n (wire.recv fd n w).0

-- A read that ended has this many bytes.
abbrev HasLength : {W : Type 0} → ℕ → Outcome Bytes × W → Type 0
HasLength n (done bytes, w) = length bytes ≡ n
HasLength n (returned _, w) = Unit

-- A complete message has its whole payload, and that is no longer than a chunk; a part of a message
-- is one full chunk of it.
abbrev pub Fits : ℕ → ChunkRead → Type 0
Fits chunk_size_in (stopped _) = Unit
Fits chunk_size_in (complete m) =
    (length m.payload ≡ m.header.message_length) × (m.header.message_length ≤ chunk_size_in)
Fits chunk_size_in (partial m) =
    (length m.payload ≡ chunk_size_in) × (chunk_size_in < m.header.message_length)

HasLength-continue :
    {W : Type 0} (bytes : Bytes) (n : ℕ) (o : Outcome Bytes × W)
    → length bytes ≤ n
    → HasLength (n - length bytes) o
    → HasLength n (continue (λ rest. pure (bytes ++ rest)) o)
HasLength-continue bytes n (done rest, w) h has = omega (arith, length-append bytes rest)
HasLength-continue bytes n (returned code, w) h has = tt

after_recv-HasLength :
    {W : Type 0} (later : ℕ → W → Outcome Bytes × W) (n : ℕ) (o : Received × W)
    → AtMost n o.0
    → ((m : ℕ) (w : W) → m < n → HasLength m (later m w))
    → HasLength n (after_recv later n o)
unfolding after_recv
after_recv-HasLength later n (recv_failed, w) h ih = tt
after_recv-HasLength later n (received [], w) h ih = tt
after_recv-HasLength later n (received (b ∷ bs), w) h ih =
    HasLength-continue (b ∷ bs) n (later (n - length (b ∷ bs)) w) h
      (ih (n - length (b ∷ bs)) w (omega arith))

module _ {W : Type 0} (wire : Wire W) (bounded : IsBounded wire) where
  read_loop-HasLength :
      (fd : ℤ) (rounds left : ℕ) (w : W)
      → left ≤ rounds
      → HasLength left (read_loop wire fd rounds left w)
  unfolding read_loop after_recv
  read_loop-HasLength fd zero zero w h = refl
  read_loop-HasLength fd zero (suc left) w h = elim h [ ]
  read_loop-HasLength fd (suc rounds) zero w h = refl
  read_loop-HasLength fd (suc rounds) (suc left) w h =
      after_recv-HasLength (read_loop wire fd rounds) (suc left) (wire.recv fd (suc left) w)
        (bounded fd (suc left) w) (λ m w' less. read_loop-HasLength fd rounds m w' (omega arith))

  after_payload-Fits :
      (chunk_size_in : ℕ) (h : ChunkHeader) (o : Outcome Bytes × W)
      → HasLength (chunk_data_size h chunk_size_in) o
      → Fits chunk_size_in (after_payload h o).0
  unfolding after_payload classify chunk_data_size
  after_payload-Fits chunk_size_in h (returned code, w) has = tt
  after_payload-Fits chunk_size_in h (done bytes, w) has =
      elim (Bool-cases (ltb chunk_size_in h.message_length)) [
        | inl longer ↦
            let size : length bytes ≡ chunk_size_in = has ∙ rw longer refl in
            let part : leb h.message_length (length bytes) ≡ false =
              ground (arith, ltb→lt _ _ longer) in
            rw (part, classify) (size, ltb→lt _ _ longer)
        | inr short ↦
            let size : length bytes ≡ h.message_length = has ∙ rw short refl in
            let whole : leb h.message_length (length bytes) ≡ true = ground (arith, size) in
            rw (whole, classify) (size, ltb-false _ _ short)
      ]

  read_payload-Fits :
      (conn : Connection) (h : ChunkHeader) (w : W)
      → Fits conn.chunk_size_in (read_payload wire conn h w).0
  unfolding read_payload rtmp_read_bytes
  read_payload-Fits conn h w = elim (Bool-cases (wire.malloc h.message_length w)) [
    | inl memory ↦ rw memory (
        after_payload-Fits conn.chunk_size_in h _ (
          read_loop-HasLength conn.socket_fd _ (chunk_data_size h conn.chunk_size_in) w
            (omega arith)))
    | inr none_left ↦ rw none_left tt
  ]

  after_header-Fits :
      (conn : Connection) (last : List ChunkHeader) (o : Outcome ChunkHeader × W)
      → Fits conn.chunk_size_in (after_header wire conn last o).1.0
  unfolding after_header
  after_header-Fits conn last (returned code, w) = tt
  after_header-Fits conn last (done h, w) = elim (Bool-cases (ltb h.chunk_stream_id 64)) [
    | inl low ↦ rw low (read_payload-Fits conn _ w)
    | inr high ↦ rw high (read_payload-Fits conn h w)
  ]

  -- Whatever bytes come, `rtmp_chunk_read` returns 1 only for a message that is no longer than the
  -- chunk size, with its whole payload; a longer one ends with 2 and one chunk of its payload,
  -- also when this is not its first chunk. No payload has more bytes than were allocated.
  pub rtmp_chunk_read-Fits :
      (conn : Connection) (last : List ChunkHeader) (w : W)
      → Fits conn.chunk_size_in (rtmp_chunk_read wire conn last w).1.0
  unfolding rtmp_chunk_read
  rtmp_chunk_read-Fits conn last w =
      after_header-Fits conn last (rtmp_read_chunk_header wire conn.socket_fd no_header w)
