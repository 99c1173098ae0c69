-- ===== src/RtmpServer/Socket/Programs.antt =====
-- What a sequence of exact reads and writes of src/modules/rtmp_server/rtmp_server.c does on a
-- socket whose peer stays connected: the bytes it takes, and the bytes it appends.
use strero.Prelude.{
  ◌≡◌, refl, sym, ap, subst, ◌∙◌, Bool, true, false, [], ◌++◌, append-nil, append_assoc,
  if◌then◌else◌, length, Bytes, ℤ,
}
use strero.RtmpServer.{Wire}
use strero.RtmpServer.Socket.{
  done, M, continue, ◌>>=◌, ◌>>◌, pure, rtmp_read_bytes, rtmp_write_bytes,
}
use strero.RtmpServer.Socket.Streams.{Streams, rtmp_read_bytes_lem, rtmp_write_bytes_lem}

module _ {W : Type 0} {wire : Wire W} {fd : ℤ} (s : Streams wire fd) where
  -- A program that takes these bytes from the stream and ends with this value.
  abbrev pub Reads : {A : Type 0} → M W A → Bytes → A → Type 0
  Reads m bytes a =
      (w : W) (rest : Bytes)
      → s.pending w ≡ bytes ++ rest
      → (w' : W) × (m w ≡ (done a, w')) × (s.pending w' ≡ rest) × (s.written w' ≡ s.written w)

  pub Reads-pure : {A : Type 0} (a : A) → Reads (pure a) [] a
  Reads-pure a w rest e = (w, refl, e, refl)

  pub Reads-bind :
      {A B : Type 0} (m : M W A) (f : A → M W B) (xs ys : Bytes) (a : A) (b : B)
      → Reads m xs a
      → Reads (f a) ys b
      → Reads (m >>= f) (xs ++ ys) b
  Reads-bind m f xs ys a b first second w rest e =
      let (w1, ran, left, kept) = first w (ys ++ rest) (e ∙ append_assoc xs ys rest) in
      let (w2, ran2, left2, kept2) = second w1 rest left in
      (w2, ap (continue f) ran ∙ ran2, left2, kept2 ∙ kept)

  pub Reads-bytes : (bytes : Bytes) → Reads (rtmp_read_bytes wire fd (length bytes)) bytes bytes
  Reads-bytes bytes w rest e = rtmp_read_bytes_lem wire fd s bytes rest w e

  pub Reads-value :
      {A : Type 0} (m : M W A) (bytes : Bytes) (a b : A) → a ≡ b → Reads m bytes a → Reads m bytes b
  Reads-value m bytes a b e reads = subst (λ v. Reads m bytes v) e reads

  -- A read and a value that is computed from it.
  pub Reads-map :
      {A B : Type 0} (m : M W A) (f : A → B) (bytes : Bytes) (a : A) (b : B)
      → Reads m bytes a
      → f a ≡ b
      → Reads (m >>= λ x. pure (f x)) bytes b
  Reads-map m f bytes a b reads e =
      Reads-value (m >>= λ x. pure (f x)) bytes (f a) b e (λ w rest pending.
        let (w', ran, left, kept) = reads w rest pending in
        (w', ap (continue (λ x. pure (f x))) ran, left, kept))

  -- A program that appends these bytes to what the peer gets.
  abbrev pub Writes : M W (Unit {0}) → Bytes → Type 0
  Writes m bytes =
      (w : W)
      → (w' : W) × (m w ≡ (done tt, w'))
        × (s.pending w' ≡ s.pending w)
        × (s.written w' ≡ s.written w ++ bytes)

  pub Writes-pure : Writes (pure tt) []
  Writes-pure w = (w, refl, refl, sym (append-nil _))

  pub Writes-then :
      (m k : M W (Unit {0})) (xs ys : Bytes)
      → Writes m xs
      → Writes k ys
      → Writes (m >> k) (xs ++ ys)
  Writes-then m k xs ys first second w =
      let (w1, ran, kept, wrote) = first w in
      let (w2, ran2, kept2, wrote2) = second w1 in
      (
        w2,
        ap (continue (λ _. k)) ran ∙ ran2,
        kept2 ∙ kept,
        wrote2 ∙ ap (λ l. l ++ ys) wrote ∙ append_assoc (s.written w) xs ys,
      )

  pub Writes-bytes : (bytes : Bytes) → Writes (rtmp_write_bytes wire fd bytes) bytes
  Writes-bytes bytes w = rtmp_write_bytes_lem wire fd s bytes w

  pub Writes-if :
      (test : Bool) (m k : M W (Unit {0})) (xs ys : Bytes)
      → Writes m xs
      → Writes k ys
      → Writes (if test then m else k) (if test then xs else ys)
  Writes-if true m k xs ys yes_case no_case = yes_case
  Writes-if false m k xs ys yes_case no_case = no_case
