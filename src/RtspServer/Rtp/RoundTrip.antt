-- ===== src/RtspServer/Rtp/RoundTrip.antt =====
-- The packets of src/modules/rtsp/rtsp_server.c read back by a receiver.
use strero.Prelude.{
  ℕ, zero, suc, ◌+◌, ◌*◌, ◌/◌, ◌%◌, ◌<◌, ◌≡◌, refl, Bool, true, false, ◌&&◌, some, List, [], ◌∷◌,
  ◌++◌, leb, ◌==◌, length, take, drop, get_or, Bytes, arith, ap, ◌∙◌, Bool-cases, inl, inr,
  length-drop, take-append-drop, take_short, ==_self,
}
use mathlib.Core.Option
use strero.RtspServer.{Client, VideoCodec, codec_h264, codec_h265, IsU16}
use strero.RtspServer.Rtp.{rtp_header, next_seq}
use strero.RtspServer.Rtp.Fragments.{is_empty, pieces, is_empty-pieces, packets, is_empty-packets}
use strero.RtspServer.Rtp.Refinement.{rtp_packets, fu_bytes, max_payload, nal_header_size}
use strero.RtspServer.Rtp.Receiver.{gather, receive}
use strero.RtspServer.Rtp.Units.{
  IsNal, gather-fu_packet, is_fragment-fu_packet, unit_header-fu_packet, next_seq-IsU16,
}

gather-packets :
    (codec : VideoCodec) (client : Client) (nal : Bytes) (timestamp : ℕ) (marker first : Bool)
    (n fuel : ℕ) (bytes : Bytes)
    → IsU16 client.rtp_seq
    → 0 < n
    → 0 < length bytes
    → length bytes < fuel
    → gather codec first client.rtp_seq
        (packets codec (fu_bytes codec nal) timestamp marker first client (pieces n fuel bytes))
      ≡ some bytes
unfolding pieces packets next_seq
gather-packets codec client nal timestamp marker first n zero bytes u p l h = elim h [ ]
gather-packets codec client nal timestamp marker first n (suc fuel) [] u p l h = elim l [ ]
gather-packets codec client nal timestamp marker first n (suc fuel) (x ∷ xs) u p l h =
    let shorter : length (drop n (x ∷ xs)) < fuel = omega (arith, length-drop n (x ∷ xs)) in
    let last : Bool = leb (length (x ∷ xs)) n in
    let ends : is_empty (pieces n fuel (drop n (x ∷ xs))) ≡ last =
      is_empty-pieces n fuel (x ∷ xs) shorter in
    let later : List Bytes =
      packets codec (fu_bytes codec nal) timestamp marker false (next_seq client)
        (pieces n fuel (drop n (x ∷ xs))) in
    let none_later : is_empty later ≡ last =
      is_empty-packets codec (fu_bytes codec nal) timestamp marker false (next_seq client)
        (pieces n fuel (drop n (x ∷ xs)))
      ∙ ends in
    rw ends (
      rw
        (gather-fu_packet codec client nal timestamp (last && marker) first last (take n (x ∷ xs))
          later u none_later)
        (elim (Bool-cases (leb (length (x ∷ xs)) n)) [
          | inl done ↦ rw done (ap some (take_short n (x ∷ xs) (ground arith)))
          | inr more ↦ rw more (
              rw
                (gather-packets codec (next_seq client) nal timestamp marker false n fuel
                  (drop n (x ∷ xs)) (next_seq-IsU16 client) p
                  (ground (arith, length-drop n (x ∷ xs))) shorter)
                (ap some (take-append-drop n (x ∷ xs))))
        ]))

receive-fu_packets :
    (codec : VideoCodec) (client : Client) (nal : Bytes) (timestamp : ℕ) (marker : Bool) (n : ℕ)
    (payload : Bytes)
    → IsU16 client.rtp_seq
    → IsNal codec nal
    → 0 < n
    → 0 < length payload
    → receive codec client.rtp_seq (
        packets codec
          (fu_bytes codec nal)
          timestamp
          marker
          true
          client
          (pieces n (suc (length payload)) payload))
      ≡ some (take (nal_header_size codec) nal ++ payload)
unfolding receive pieces packets
receive-fu_packets codec client nal timestamp marker n [] u h p l = elim l [ ]
receive-fu_packets codec client nal timestamp marker n (x ∷ xs) u h p l =
    rw (is_fragment-fu_packet codec client nal timestamp _ true _ (take n (x ∷ xs))) (
      rw (unit_header-fu_packet codec client nal timestamp _ true _ (take n (x ∷ xs)) h) (
        ap (λ r. Option.map (λ bytes. take (nal_header_size codec) nal ++ bytes) r)
          (gather-packets codec client nal timestamp marker true n (suc (length (x ∷ xs))) (x ∷ xs)
            u p l (omega arith))))

whole_unit :
    (codec : VideoCodec) (client : Client) (nal : Bytes) (timestamp : ℕ) (marker : Bool)
    → IsU16 client.rtp_seq
    → IsNal codec nal
    → receive codec client.rtp_seq ((rtp_header client codec timestamp marker ++ nal) ∷ [])
      ≡ some nal
unfolding receive rtp_header
whole_unit codec_h264 client nal timestamp marker u h =
    let seq : client.rtp_seq / 256 % 256 * 256 + client.rtp_seq % 256 ≡ client.rtp_seq =
      omega arith in
    let single : (get_or nal 0 0 % 32 == 28) ≡ false = ground (arith, h) in
    rw single (rw seq (rw (==_self client.rtp_seq) refl))
whole_unit codec_h265 client nal timestamp marker u h =
    let seq : client.rtp_seq / 256 % 256 * 256 + client.rtp_seq % 256 ≡ client.rtp_seq =
      omega arith in
    let single : (get_or nal 0 0 / 2 % 64 == 49) ≡ false = ground (arith, h) in
    rw single (rw seq (rw (==_self client.rtp_seq) refl))

positive_payload : (codec : VideoCodec) → 0 < max_payload codec
positive_payload codec_h264 = omega arith
positive_payload codec_h265 = omega arith

long_payload :
    (codec : VideoCodec) (nal : Bytes)
    → leb (length nal) (max_payload codec) ≡ false
    → 0 < length (drop (nal_header_size codec) nal)
long_payload codec_h264 nal h = ground (arith, length-drop 1 nal)
long_payload codec_h265 nal h = ground (arith, length-drop 2 nal)

-- A receiver of RFC 6184 or RFC 7798 gets the NAL unit back from its packets: the sequence numbers
-- count on from the client's without a gap, modulo 2^16, the S and the E bit of the fragments
-- stand on the first and on the last one only, and header and fragments give the unit. (For a unit
-- whose forbidden bit is 0 and whose type is that of a single unit.)
pub receive-rtp_packets :
    (codec : VideoCodec) (client : Client) (nal : Bytes) (timestamp : ℕ) (marker : Bool)
    → IsU16 client.rtp_seq
    → IsNal codec nal
    → receive codec client.rtp_seq (rtp_packets codec client nal timestamp marker) ≡ some nal
unfolding rtp_packets
receive-rtp_packets codec client nal timestamp marker u h =
    elim (Bool-cases (leb (length nal) (max_payload codec))) [
      | inl fits ↦ rw fits (whole_unit codec client nal timestamp marker u h)
      | inr more ↦ rw more (
          receive-fu_packets codec client nal timestamp marker (max_payload codec)
            (drop (nal_header_size codec) nal) u h (positive_payload codec)
            (long_payload codec nal more)
          ∙ ap some (take-append-drop (nal_header_size codec) nal))
    ]
