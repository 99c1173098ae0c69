-- ===== src/HttpServer/Reading.antt =====
-- The bounds of the request buffer in src/modules/http/http_module.c.
use strero.Prelude.{
  ℕ, zero, suc, ◌+◌, ◌-◌, ◌≤◌, ◌<◌, ◌≡◌, refl, some, [], ◌++◌, length, length-append, ltb, Bytes,
  codes, find_str, c_string, drop, ℤ, arith, Bool-cases, Option-cases, inl, inr, ◌==◌, ◌&&◌,
}
use strero.Auth.Basic.{crlf}
use strero.HttpServer.{Network, request_max, below, read_body, read_request}

module _ {S : Type 0} (env : Network S) where
  read_body_bounded :
      (fuel : ℕ) (content_length : ℤ) (body_received : ℕ) (request : Bytes) (s : S)
      → ((n : ℕ) (s : S) → length (env.recv n s).0 ≤ n)
      → length request ≤ request_max
      → request_max < fuel + length request
      → (result : Bytes × S) × (read_body env fuel content_length body_received request s
          ≡ some result)
        × (length result.0 ≤ request_max)
  unfolding read_body
  read_body_bounded zero l b request s r fits fuel = ground arith
  read_body_bounded (suc n) l b request s r fits fuel =
      elim (Bool-cases (below b l && ltb (length request) request_max)) [
        | inl more ↦ elim (Bool-cases (length (env.recv (request_max - length request) s).0 == 0)) [
          | inl end ↦
              ((request, (env.recv (request_max - length request) s).1), rw (more, end) refl, fits)
          | inr some_bytes ↦
              let (chunk, s') = env.recv (request_max - length request) s in
              let (result, runs, small) =
                read_body_bounded n l (b + length chunk) (request ++ chunk) s' r
                  (ground (arith, length-append request chunk, r (request_max - length request) s))
                  (ground
                    (arith, length-append request chunk, r (request_max - length request) s)) in
              (result, rw (more, some_bytes) runs, small)
        ]
        | inr done ↦ ((request, s), rw done refl, fits)
      ]

  -- If `recv` never returns more bytes than it is asked for, reading a request ends, and what was
  -- read fits into the buffer with its terminating zero, whatever Content-Length says.
  pub read_request_bounded :
      (s : S)
      → ((n : ℕ) (s : S) → length (env.recv n s).0 ≤ n)
      → (result : Bytes × S) × (read_request env s ≡ some result) × (length result.0 ≤ request_max)
  unfolding read_request
  read_request_bounded s r = elim (Bool-cases (length first == 0)) [
    | inl nothing ↦ (([], s'), rw nothing refl, ground arith)
    | inr some_bytes ↦ elim (Option-cases (find_str (codes "Content-Length: ") (c_string first))) [
      | inl no_length ↦ ((first, s'), rw (some_bytes, no_length) refl, r request_max s)
      | inr (header, e) ↦ elim (Option-cases (find_str (crlf ++ crlf) (c_string first))) [
        | inl no_end ↦ ((first, s'), rw (some_bytes, e, no_end) refl, r request_max s)
        | inr (headers, f) ↦
            let (result, runs, small) =
              read_body_bounded request_max (env.atoi (drop 16 header.1))
                (length first - (length headers.0 + 4)) first s' r (r request_max s)
                (ground arith) in
            (result, rw (some_bytes, e, f) runs, small)
      ]
    ]
  ]
    where
      first : Bytes
      first = (env.recv request_max s).0

      s' : S
      s' = (env.recv request_max s).1
