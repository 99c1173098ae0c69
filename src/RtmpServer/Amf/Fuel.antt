-- ===== src/RtmpServer/Amf/Fuel.antt =====
-- The calls of `amf_decode_value` and `amf_decode_object` of
-- src/modules/rtmp_server/rtmp_server.c within one another: each takes bytes from the buffer, so
-- that there are no more of them than bytes.
use mathlib.Core.Option
use strero.Prelude.{
  ℕ, zero, suc, ◌+◌, ◌*◌, ◌≤◌, ◌<◌, ◌≡◌, refl, ap, Bool-cases, inl, inr, none, some, Option-cases,
  map-some_inv, bind-some_inv, [], ◌∷◌, ◌==◌, length, length-drop, Bytes, has_prefix, arith,
}
use strero.RtmpServer.Amf.{
  Value, Properties, amf_decode_string, decode_number, decode_boolean, decode_scalar,
  amf_decode_value, amf_decode_object,
}

string_shrinks :
    (bs : Bytes) (r : Bytes × Bytes) → amf_decode_string bs ≡ some r → 2 + length r.1 ≤ length bs
unfolding amf_decode_string
string_shrinks [] r e = ground (arith, e)
string_shrinks (a ∷ []) r e = ground (arith, e)
string_shrinks (a ∷ b ∷ rest) (s, left) e = ground (arith, length-drop (a * 256 + b) rest)

no_string : amf_decode_string [] ≡ none
unfolding amf_decode_string
no_string = refl

scalar_shrinks :
    (type : ℕ) (bs : Bytes) (r : Value × Bytes)
    → decode_scalar type bs ≡ some r
    → length r.1 ≤ length bs
unfolding decode_scalar decode_number decode_boolean
scalar_shrinks type [] r e = ground (arith, e, no_string)
scalar_shrinks type (b ∷ bs) r e = elim (Option-cases (amf_decode_string (b ∷ bs))) [
  | inl nothing ↦ ground (arith, e, length-drop 8 (b ∷ bs), nothing)
  | inr (s, got) ↦ ground (arith, e, length-drop 8 (b ∷ bs), got, string_shrinks (b ∷ bs) s got)
]

mutual
  unfolding amf_decode_value amf_decode_object

  value_shrinks :
      (rounds : ℕ) (bs : Bytes) (r : Value × Bytes)
      → amf_decode_value rounds bs ≡ some r
      → length r.1 < length bs
  value_shrinks rounds [] r e = ground (arith, e)
  value_shrinks zero (type ∷ bs) r e = ground (arith, e)
  value_shrinks (suc rounds) (type ∷ bs) r e = elim (Bool-cases (type == 3)) [
    | inl an_object ↦
        let (o, run, same) = map-some_inv _ _ r (rw (an_object, amf_decode_value) at e) in
        omega (arith, object_shrinks rounds bs o run, ap (λ (p : Value × Bytes). length p.1) same)
    | inr other ↦ omega (arith, scalar_shrinks type bs r (rw (other, amf_decode_value) at e))
  ]

  object_shrinks :
      (rounds : ℕ) (bs : Bytes) (r : Properties × Bytes)
      → amf_decode_object rounds bs ≡ some r
      → length r.1 ≤ length bs
  object_shrinks rounds [] r e = ground (arith, e)
  object_shrinks zero (b ∷ bs) r e = ground (arith, e)
  object_shrinks (suc rounds) (b ∷ bs) r e =
      elim (Bool-cases (has_prefix (0 ∷ 0 ∷ 9 ∷ []) (b ∷ bs))) [
        | inl marker ↦
            let e' = rw (marker, amf_decode_object) at e in
            ground (arith, e', length-drop 3 (b ∷ bs))
        | inr more ↦
            let (name, named, e1) =
              bind-some_inv _ (amf_decode_string (b ∷ bs)) r (rw (more, amf_decode_object) at e) in
            let (value, valued, e2) = bind-some_inv _ (amf_decode_value rounds name.1) r e1 in
            let (later, ran, same) = map-some_inv _ (amf_decode_object rounds value.1) r e2 in
            omega (
              arith,
              string_shrinks (b ∷ bs) name named,
              value_shrinks rounds name.1 value valued,
              object_shrinks rounds value.1 later ran,
              ap (λ (p : Properties × Bytes). length p.1) same,
            )
      ]
