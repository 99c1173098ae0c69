-- ===== src/RtmpServer/Handshake/Echo.antt =====
-- What a client gets in the handshake of src/modules/rtmp_server/rtmp_server.c.
use strero.Prelude.{
  ℕ, zero, suc, ◌≡◌, refl, ap, ◌∙◌, false, [], ◌∷◌, ◌++◌, append_assoc, ◌==◌, length, Bytes, ℤ,
  minus_one, arith,
}
use strero.RtmpServer.{handshake_done, Connection, Wire}
use strero.RtmpServer.Socket.{done, returned}
use strero.RtmpServer.Socket.Streams.{Streams}
use strero.RtmpServer.Socket.Programs.{Writes-bytes}
use strero.RtmpServer.Chunks.RoundTrip.{Reads-read_or}
use strero.RtmpServer.Handshake.{check_version, random_bytes, s1_data, rtmp_handshake_process}

module _ {W : Type 0} {wire : Wire W} {fd : ℤ} (s : Streams wire fd) where
  -- The clock and the random numbers have nothing to do with the socket.
  abbrev pub IsQuiet : Type 0
  IsQuiet =
      (w : W)
      → (s.pending (wire.time w).1 ≡ s.pending w)
        × (s.written (wire.time w).1 ≡ s.written w)
        × (s.pending (wire.rand w).1 ≡ s.pending w)
        × (s.written (wire.rand w).1 ≡ s.written w)

  random_bytes_lem :
      (quiet : IsQuiet) (n : ℕ) (w : W)
      → (length (random_bytes wire n w).0 ≡ n)
        × (s.pending (random_bytes wire n w).1 ≡ s.pending w)
        × (s.written (random_bytes wire n w).1 ≡ s.written w)
  unfolding random_bytes
  random_bytes_lem quiet zero w = (refl, refl, refl)
  random_bytes_lem quiet (suc n) w =
      let (size, left, kept) = random_bytes_lem quiet n (wire.rand w).1 in
      (ap suc size, left ∙ (quiet w).2, kept ∙ (quiet w).3)

  s1_data_lem :
      (quiet : IsQuiet) (w : W)
      → (s1 : Bytes) × (w' : W) × (s1_data wire w ≡ (done s1, w'))
        × (length s1 ≡ 1536)
        × (s.pending w' ≡ s.pending w)
        × (s.written w' ≡ s.written w)
  unfolding s1_data
  s1_data_lem quiet w =
      let (size, left, kept) = random_bytes_lem quiet 1528 (wire.time w).1 in
      (_, _, refl, omega (arith, size), left ∙ (quiet w).0, kept ∙ (quiet w).1)

  -- The connection after a handshake with these two blocks.
  abbrev pub shaken : Connection → Bytes → Bytes → Connection
  shaken conn c1 c2 = record conn {
    c0_s0_version = 3;
    c1_s1_data = c1;
    c2_s2_data = c2;
    state = handshake_done;
  }

  -- A peer that sends the version 3 and two blocks of 1536 bytes each, on an open socket:
  -- `rtmp_handshake_process` returns 0 and takes these bytes and no more, the peer gets the
  -- version 3, a block of 1536 bytes and then its own first block back, every byte of it (also those
  -- where the specification has the time of its reading), and the connection is in
  -- the state `handshake_done` with both blocks kept, when the clock and the random numbers have
  -- nothing to do with the socket.
  pub rtmp_handshake_process_echo :
      (conn : Connection) (c1 c2 rest : Bytes) (w : W)
      → IsQuiet
      → length c1 ≡ 1536
      → length c2 ≡ 1536
      → s.pending w ≡ 3 ∷ (c1 ++ (c2 ++ rest))
      → (s1 : Bytes) × (w' : W) × (rtmp_handshake_process wire fd (conn, w)
          ≡ (done tt, (shaken conn c1 c2, w')))
        × (length s1 ≡ 1536)
        × (s.pending w' ≡ rest)
        × (s.written w' ≡ s.written w ++ ((3 ∷ []) ++ (s1 ++ c1)))
  unfolding rtmp_handshake_process check_version
  rtmp_handshake_process_echo conn c1 c2 rest w quiet size1 size2 e =
      let (w1, ran1, left1, kept1) =
        Reads-read_or s minus_one 1 (3 ∷ []) refl w (c1 ++ (c2 ++ rest)) e in
      let (w2, ran2, kept2, wrote2) = Writes-bytes s (3 ∷ []) w1 in
      let (w3, ran3, left3, kept3) =
        Reads-read_or s minus_one 1536 c1 size1 w2 (c2 ++ rest) (kept2 ∙ left1) in
      let (s1, w4, ran4, size, kept4, same4) = s1_data_lem quiet w3 in
      let (w5, ran5, kept5, wrote5) = Writes-bytes s s1 w4 in
      let (w6, ran6, kept6, wrote6) = Writes-bytes s c1 w5 in
      let (w7, ran7, left7, kept7) =
        Reads-read_or s minus_one 1536 c2 size2 w6 rest (kept6 ∙ kept5 ∙ kept4 ∙ left3) in
      let sent5 : s.written w5 ≡ (s.written w ++ (3 ∷ [])) ++ s1 =
        wrote5 ∙ ap (λ l. l ++ s1) (same4 ∙ kept3 ∙ wrote2 ∙ ap (λ l. l ++ (3 ∷ [])) kept1) in
      (
        s1,
        w7,
        rw (ran1, rtmp_handshake_process)
            (rw ran2 (rw ran3 (rw ran4 (rw ran5 (rw ran6 (rw ran7 refl)))))),
        size,
        left7,
        kept7
            ∙ wrote6
            ∙ ap (λ l. l ++ c1) sent5
            ∙ append_assoc (s.written w ++ (3 ∷ [])) s1 c1
            ∙ append_assoc (s.written w) (3 ∷ []) (s1 ++ c1),
      )

-- Any other version ends the handshake with -1, with nothing sent and the connection as it was.
pub rtmp_handshake_process_version :
    {W : Type 0} {wire : Wire W} {fd : ℤ} (s : Streams wire fd) (conn : Connection) (version : ℕ)
    (rest : Bytes) (w : W)
    → (version == 3) ≡ false
    → s.pending w ≡ version ∷ rest
    → (w' : W) × (rtmp_handshake_process wire fd (conn, w) ≡ (returned minus_one, (conn, w')))
      × (s.pending w' ≡ rest)
      × (s.written w' ≡ s.written w)
unfolding rtmp_handshake_process check_version
rtmp_handshake_process_version {wire = wire} {fd = fd} s conn version rest w other e =
    let (w', ran, left, kept) = Reads-read_or s minus_one 1 (version ∷ []) refl w rest e in
    (w', rw (ran, rtmp_handshake_process) (rw other refl), left, kept)
