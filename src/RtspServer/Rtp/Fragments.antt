-- ===== src/RtspServer/Rtp/Fragments.antt =====
-- The packets of a NAL unit as a list, and the loop of src/modules/rtsp/rtsp_server.c that hands
-- them over one after the other.
use strero.Prelude.{
  ℕ, zero, suc, ◌+◌, ◌<◌, ◌≡◌, refl, Bool, true, false, ◌&&◌, some, List, [], ◌∷◌, ◌++◌, leb, ◌==◌,
  if◌then◌else◌, length, take, drop, Bytes, pos, minus_one, arith, length-drop,
}
use strero.RtspServer.{Client, Sockets, VideoCodec}
use strero.RtspServer.Rtp.{Sending, rtp_header, next_seq, deliver_packet, fragment_loop}

-- A byte string in pieces of `n` bytes, the last of which may be shorter.
unfoldable pub pieces : ℕ → ℕ → Bytes → List Bytes
pieces n zero bytes = []
pieces n (suc fuel) [] = []
pieces n (suc fuel) (x ∷ xs) = take n (x ∷ xs) ∷ pieces n fuel (drop n (x ∷ xs))

abbrev pub is_empty : List Bytes → Bool
is_empty [] = true
is_empty (_ ∷ _) = false

-- One packet for every piece: consecutive sequence numbers, the codec's bytes `fu first last`, and
-- the marker on the last one.
unfoldable pub packets :
    VideoCodec → (Bool → Bool → Bytes) → ℕ → Bool → Bool → Client → List Bytes → List Bytes
packets codec fu timestamp marker first client [] = []
packets codec fu timestamp marker first client (piece ∷ later) =
    (rtp_header client codec timestamp (is_empty later && marker)
      ++ fu first (is_empty later)
      ++ piece)
    ∷ packets codec fu timestamp marker false (next_seq client) later

is_empty-pieces_all :
    (n fuel : ℕ) (bytes : Bytes) → is_empty (pieces n (suc fuel) bytes) ≡ (length bytes == 0)
unfolding pieces
is_empty-pieces_all n fuel [] = refl
is_empty-pieces_all n fuel (x ∷ xs) = ground arith

-- The last piece is the one that what is left fits into.
pub is_empty-pieces :
    (n fuel : ℕ) (bytes : Bytes)
    → length (drop n bytes) < fuel
    → is_empty (pieces n fuel (drop n bytes)) ≡ leb (length bytes) n
is_empty-pieces n zero bytes h = elim h [ ]
is_empty-pieces n (suc fuel) bytes h =
    rw (is_empty-pieces_all n fuel (drop n bytes)) (ground (arith, length-drop n bytes))

pub is_empty-packets :
    (codec : VideoCodec) (fu : Bool → Bool → Bytes) (timestamp : ℕ) (marker first : Bool)
    (client : Client) (parts : List Bytes)
    → is_empty (packets codec fu timestamp marker first client parts) ≡ is_empty parts
unfolding packets
is_empty-packets codec fu timestamp marker first client [] = refl
is_empty-packets codec fu timestamp marker first client (piece ∷ later) = refl

later_is_first : (n : ℕ) → (n + 1 == 0) ≡ false
later_is_first n = ground arith

some-if :
    {A : Type 0} → (b : Bool) (x y : A) → (if b then some x else some y) ≡ some (if b then x else y)
some-if true x y = refl
some-if false x y = refl

module _ {W : Type 0} (net : Sockets W) where
  -- Hands over packets in order, up to the first one that fails.
  unfoldable pub transmit : VideoCodec → List Bytes → ℕ → Client → W → Sending W
  transmit codec [] sent client w = (pos sent, client, w)
  transmit codec (packet ∷ later) sent client w =
      let (delivered, w') = deliver_packet net codec (next_seq client) packet w in
      let rest = transmit codec later (sent + 1) (next_seq client) w' in
      if delivered then rest else (minus_one, next_seq client, w')

  pub fragment_loop-transmit :
      (codec : VideoCodec) (n : ℕ) (fu : Bool → Bool → Bytes) (timestamp : ℕ) (marker : Bool)
      (fuel : ℕ) (bytes : Bytes) (sent : ℕ) (client : Client) (w : W)
      → 0 < n
      → length bytes < fuel
      → fragment_loop net codec n fu timestamp marker fuel bytes sent client w
        ≡ some (
            transmit codec
              (packets codec fu timestamp marker (sent == 0) client (pieces n fuel bytes))
              sent
              client
              w)
  unfolding fragment_loop transmit packets pieces
  fragment_loop-transmit codec n fu timestamp marker zero bytes sent client w p h = elim h [ ]
  fragment_loop-transmit codec n fu timestamp marker (suc fuel) [] sent client w p h = refl
  fragment_loop-transmit codec n fu timestamp marker (suc fuel) (x ∷ xs) sent client w p h =
      let shorter : length (drop n (x ∷ xs)) < fuel = omega (arith, length-drop n (x ∷ xs)) in
      rw (is_empty-pieces n fuel (x ∷ xs) shorter) (
        rw
          (fragment_loop-transmit codec n fu timestamp marker fuel (drop n (x ∷ xs)) (sent + 1)
            (next_seq client) _ p shorter)
          (rw (later_is_first sent) (some-if _ _ _)))
