-- ===== src/RtmpServer/Socket/Streams.antt =====
-- A socket whose peer stays connected, and what the exact reads and writes of
-- src/modules/rtmp_server/rtmp_server.c do on it.
use strero.Prelude.{
  ℕ, zero, suc, ◌+◌, ◌-◌, ◌≤◌, ◌<◌, ◌≡◌, refl, sym, ap, ◌∙◌, [], ◌∷◌, ◌++◌, append-nil,
  append_assoc, length, length-append, take, drop, length-drop, take-append-drop,
  take-append_length, drop-append_length, Bytes, ℤ, pos, arith,
}
use strero.RtmpServer.{received, Wire}
use strero.RtmpServer.Socket.{
  done, continue, pure, after_recv, after_send, read_loop, rtmp_read_bytes, write_loop,
  rtmp_write_bytes,
}

-- POSIX: while bytes have come, recv returns one or more of them, and no more than are asked for;
-- send on an open connection takes one or more of the bytes that it is given.
pub record Streams {W : Type 0} (wire : Wire W) (fd : ℤ) : Type 0 where
  pub pending : W → Bytes
  pub written : W → Bytes
  pub recv_some :
      (n : ℕ) (w : W)
      → 0 < n
      → 0 < length (pending w)
      → (b : ℕ) × (bs : Bytes) × (w' : W) × (wire.recv fd n w ≡ (received (b ∷ bs), w'))
        × (suc (length bs) ≤ n)
        × (pending w ≡ (b ∷ bs) ++ pending w')
        × (written w' ≡ written w)
  pub send_some :
      (bytes : Bytes) (w : W)
      → 0 < length bytes
      → (n : ℕ) × (w' : W) × (wire.send fd bytes w ≡ (pos (suc n), w'))
        × (suc n ≤ length bytes)
        × (written w' ≡ written w ++ take (suc n) bytes)
        × (pending w' ≡ pending w)

take-append_past :
    (n : ℕ) (xs ys : Bytes) → length xs ≤ n → take n (xs ++ ys) ≡ xs ++ take (n - length xs) ys
take-append_past n [] ys h = ap (λ m. take m ys) (omega arith)
take-append_past zero (x ∷ xs) ys h = elim h [ ]
take-append_past (suc n) (x ∷ xs) ys h =
    ap (λ l. x ∷ l) (take-append_past n xs ys (omega arith))
    ∙ ap (λ m. (x ∷ xs) ++ take m ys) (omega arith)

drop-append_past :
    (n : ℕ) (xs ys : Bytes) → length xs ≤ n → drop n (xs ++ ys) ≡ drop (n - length xs) ys
drop-append_past n [] ys h = ap (λ m. drop m ys) (omega arith)
drop-append_past zero (x ∷ xs) ys h = elim h [ ]
drop-append_past (suc n) (x ∷ xs) ys h =
    drop-append_past n xs ys (omega arith) ∙ ap (λ m. drop m ys) (omega arith)

module _ {W : Type 0} (wire : Wire W) (fd : ℤ) (s : Streams wire fd) where
  read_loop_lem :
      (rounds left : ℕ) (w : W)
      → left ≤ rounds
      → left ≤ length (s.pending w)
      → (w' : W) × (read_loop wire fd rounds left w ≡ (done (take left (s.pending w)), w'))
        × (s.pending w' ≡ drop left (s.pending w))
        × (s.written w' ≡ s.written w)
  unfolding read_loop after_recv
  read_loop_lem zero zero w h enough = (w, refl, refl, refl)
  read_loop_lem zero (suc left) w h enough = elim h [ ]
  read_loop_lem (suc rounds) zero w h enough = (w, refl, refl, refl)
  read_loop_lem (suc rounds) (suc left) w h enough =
      let (b, bs, w1, ran, few, split, kept) =
        s.recv_some (suc left) w (omega arith) (omega arith) in
      let size : length (s.pending w) ≡ suc (length bs) + length (s.pending w1) =
        ap length split ∙ length-append (b ∷ bs) (s.pending w1) in
      let (w2, later, rest, kept2) =
        read_loop_lem rounds (suc left - suc (length bs)) w1 (omega arith) (omega arith) in
      (
        w2,
        ap (after_recv (read_loop wire fd rounds) (suc left)) ran
            ∙ ap (continue (λ rest. pure ((b ∷ bs) ++ rest))) later
            ∙ ap (λ l. (done l, w2))
                (sym (take-append_past (suc left) (b ∷ bs) (s.pending w1) (omega arith))
                  ∙ ap (take (suc left)) (sym split)),
        rest
            ∙ sym (drop-append_past (suc left) (b ∷ bs) (s.pending w1) (omega arith))
            ∙ ap (drop (suc left)) (sym split),
        kept2 ∙ kept,
      )

  write_loop_lem :
      (rounds : ℕ) (bytes : Bytes) (w : W)
      → length bytes ≤ rounds
      → (w' : W) × (write_loop wire fd rounds bytes w ≡ (done tt, w'))
        × (s.pending w' ≡ s.pending w)
        × (s.written w' ≡ s.written w ++ bytes)
  unfolding write_loop after_send
  write_loop_lem zero [] w h = (w, refl, refl, sym (append-nil _))
  write_loop_lem zero (b ∷ bytes) w h = elim h [ ]
  write_loop_lem (suc rounds) [] w h = (w, refl, refl, sym (append-nil _))
  write_loop_lem (suc rounds) (b ∷ bytes) w h =
      let (n, w1, ran, few, wrote, kept) = s.send_some (b ∷ bytes) w (omega arith) in
      let (w2, later, kept2, wrote2) =
        write_loop_lem rounds (drop (suc n) (b ∷ bytes)) w1
          (omega (arith, length-drop (suc n) (b ∷ bytes))) in
      (
        w2,
        ap (after_send (write_loop wire fd rounds) (b ∷ bytes)) ran ∙ later,
        kept2 ∙ kept,
        wrote2
            ∙ ap (λ l. l ++ drop (suc n) (b ∷ bytes)) wrote
            ∙ append_assoc (s.written w) _ _
            ∙ ap (λ l. s.written w ++ l) (take-append-drop (suc n) (b ∷ bytes)),
      )

  -- While `bytes` are what comes next, an exact read of as many takes them.
  pub rtmp_read_bytes_lem :
      (bytes rest : Bytes) (w : W)
      → s.pending w ≡ bytes ++ rest
      → (w' : W) × (rtmp_read_bytes wire fd (length bytes) w ≡ (done bytes, w'))
        × (s.pending w' ≡ rest)
        × (s.written w' ≡ s.written w)
  unfolding rtmp_read_bytes
  rtmp_read_bytes_lem bytes rest w e =
      let (w', ran, left, kept) =
        read_loop_lem (length bytes) (length bytes) w (omega arith)
          (omega (arith, ap length e, length-append bytes rest)) in
      (
        w',
        ran ∙ ap (λ l. (done l, w')) (ap (take (length bytes)) e ∙ take-append_length bytes rest),
        left ∙ ap (drop (length bytes)) e ∙ drop-append_length bytes rest,
        kept,
      )

  -- An exact write appends the bytes.
  pub rtmp_write_bytes_lem :
      (bytes : Bytes) (w : W)
      → (w' : W) × (rtmp_write_bytes wire fd bytes w ≡ (done tt, w'))
        × (s.pending w' ≡ s.pending w)
        × (s.written w' ≡ s.written w ++ bytes)
  unfolding rtmp_write_bytes
  rtmp_write_bytes_lem bytes w = write_loop_lem (length bytes) bytes w (omega arith)
