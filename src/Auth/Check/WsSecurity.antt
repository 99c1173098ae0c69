-- ===== src/Auth/Check/WsSecurity.antt =====
-- The WS-Security token in `auth_check_onvif_request` of src/auth_utils.c.
use strero.Prelude.{
  take_short, occurs, true, false, ◌||◌, ℕ, ◌-◌, append-nil, ◌≤◌, ◌<◌, ◌≡◌, refl, ◌∙◌, ap, Option,
  none, some, [], ◌∷◌, ◌++◌, length, length-append, drop, Bytes, codes, Lacks, find_str, has_prefix,
  str_eq_refl, arith,
}
use strero.Auth.Basic.{AuthConfig, success, name_size}
use strero.Auth.Check.{
  ClientInfo, earlier, parse_ws_security_token, has_ws_security, auth_check_onvif_request,
}

-- A search for something that begins with a byte skips what lacks the byte.
find_str-skip :
    (c : ℕ) (needle before after : Bytes)
    → Lacks c before
    → find_str (c ∷ needle) (before ++ after)
      ≡ (elim (find_str (c ∷ needle) after) [ none ↦ none | some (a, b) ↦ some (before ++ a, b) ])
unfolding find_str has_prefix
find_str-skip c needle [] after h = ground arith
find_str-skip c needle (x ∷ before) after h = ground (arith, find_str-skip c needle before after)

-- What lacks the byte that a pattern begins with cuts an occurrence off.
has_prefix-stop :
    (c : ℕ) (needle s t : Bytes)
    → Lacks c needle
    → has_prefix needle s ≡ false
    → has_prefix needle (s ++ (c ∷ t)) ≡ false
unfolding has_prefix
has_prefix-stop c [] s t lacks h = cc
has_prefix-stop c (x ∷ needle) [] t lacks h = ground arith
has_prefix-stop c (x ∷ needle) (y ∷ s) t lacks h =
    ground (arith, has_prefix-stop c needle s t lacks.1)

-- A search skips what has no occurrence, up to the next byte like its first.
find_str-before :
    (c : ℕ) (needle before after : Bytes)
    → Lacks c needle
    → occurs (c ∷ needle) before ≡ false
    → find_str (c ∷ needle) (before ++ (c ∷ after)) ≡ (elim (find_str (c ∷ needle) (c ∷ after)) [
      | none ↦ none
      | some (a, b) ↦ some (before ++ a, b)
    ])
unfolding find_str has_prefix
find_str-before c needle [] after lacks h = ground arith
find_str-before c needle (x ∷ before) after lacks h = ground (
  arith,
  find_str-before c needle before after lacks,
  has_prefix-stop c needle before after lacks,
)

has_prefix-longer :
    (needle s t : Bytes) → has_prefix needle s ≡ true → has_prefix needle (s ++ t) ≡ true
unfolding has_prefix
has_prefix-longer [] s t h = refl
has_prefix-longer (x ∷ needle) [] t h = ground arith
has_prefix-longer (x ∷ needle) (y ∷ s) t h = ground (arith, has_prefix-longer needle s t)

occurs-longer : (needle s t : Bytes) → occurs needle s ≡ true → occurs needle (s ++ t) ≡ true
unfolding find_str has_prefix
occurs-longer [] [] [] h = refl
occurs-longer [] [] (y ∷ t) h = refl
occurs-longer (x ∷ needle) [] t h = ground arith
occurs-longer needle (x ∷ s) t h =
    ground (arith, occurs-longer needle s t, has_prefix-longer needle (x ∷ s) t)

end_at :
    (user rest : Bytes)
    → Lacks b'<' user
    → find_str (codes "</Username>") (user ++ (codes "</Username>" ++ rest))
      ≡ some (user ++ [], codes "</Username>" ++ rest)
unfolding find_str has_prefix
end_at user rest h = find_str-skip b'<' (codes "/Username>") user (codes "</Username>" ++ rest) h

end_ns :
    (user rest : Bytes)
    → Lacks b'<' user
    → find_str (codes "</wsse:Username>") (user ++ (codes "</Username>" ++ rest))
      ≡ (elim (find_str (codes "</wsse:Username>") (codes "</Username>" ++ rest)) [
        | none ↦ none
        | some (a, b) ↦ some (user ++ a, b)
      ])
end_ns user rest h =
    find_str-skip b'<' (codes "/wsse:Username>") user (codes "</Username>" ++ rest) h

earlier_stays :
    (first : Bytes × Bytes) (n m : ℕ) (found : Option (Bytes × Bytes)) (more : Bytes)
    → length first.0 ≤ length more
    → earlier (some first) n (elim found [ none ↦ none | some (a, b) ↦ some (more ++ a, b) ]) m
      ≡ some (first.0, drop n first.1)
earlier_stays first n m none more h = refl
earlier_stays first n m (some (a, b)) more h = ground (arith, length-append more a)

abbrev elim_before : Bytes → Option (Bytes × Bytes) → Option (Bytes × Bytes)
elim_before before found = elim found [ none ↦ none | some (a, b) ↦ some (before ++ a, b) ]

at_start :
    (t : Bytes)
    → find_str (codes "<Username>") (codes "<Username>" ++ t) ≡ some ([], codes "<Username>" ++ t)
unfolding find_str has_prefix
at_start t = refl

start_of_name :
    (before t : Bytes)
    → occurs (codes "<Username>") before ≡ false
    → occurs (codes "<wsse:Username>") before ≡ false
    → earlier
        (find_str (codes "<Username>") (before ++ (codes "<Username>" ++ t)))
        10
        (find_str (codes "<wsse:Username>") (before ++ (codes "<Username>" ++ t)))
        15
      ≡ some (before, t)
start_of_name before t no_name no_ns =
    ap
      (λ x.
        earlier x 10 (find_str (codes "<wsse:Username>") (before ++ (codes "<Username>" ++ t))) 15)
      (find_str-before b'<' (codes "Username>") before (codes "Username>" ++ t)
          (refl, (refl, (refl, (refl, (refl, (refl, (refl, (refl, (refl, tt))))))))) no_name
        ∙ ap (elim_before before) (at_start t)
        ∙ ap (λ u. some (u, codes "<Username>" ++ t)) (append-nil before))
    ∙ ap (λ x. earlier (some (before, codes "<Username>" ++ t)) 10 x 15)
        (find_str-before b'<' (codes "wsse:Username>") before (codes "Username>" ++ t)
          (
            refl,
            (
              refl,
              (
                refl,
                (
                  refl,
                  (
                    refl,
                    (refl, (refl, (refl, (refl, (refl, (refl, (refl, (refl, (refl, tt))))))))),
                  ),
                ),
              ),
            ),
          )
          no_ns)
    ∙ earlier_stays (before, codes "<Username>" ++ t) 10 15
        (find_str (codes "<wsse:Username>") (codes "<Username>" ++ t)) before (omega arith)

end_of_name :
    (user rest : Bytes)
    → Lacks b'<' user
    → earlier
        (find_str (codes "</Username>") (user ++ (codes "</Username>" ++ rest)))
        0
        (find_str (codes "</wsse:Username>") (user ++ (codes "</Username>" ++ rest)))
        0
      ≡ some (user, codes "</Username>" ++ rest)
end_of_name user rest h =
    ap
      (λ x.
        earlier x 0 (find_str (codes "</wsse:Username>") (user ++ (codes "</Username>" ++ rest))) 0)
      (end_at user rest h ∙ ap (λ u. some (u, codes "</Username>" ++ rest)) (append-nil user))
    ∙ ap (λ x. earlier (some (user, codes "</Username>" ++ rest)) 0 x 0) (end_ns user rest h)
    ∙ earlier_stays (user, codes "</Username>" ++ rest) 0 0
        (find_str (codes "</wsse:Username>") (codes "</Username>" ++ rest)) user (omega arith)

-- A request with a user name between tags, with anything behind it.
abbrev pub naming : Bytes → Bytes → Bytes → Bytes
naming before user rest = before ++ (codes "<Username>" ++ (user ++ (codes "</Username>" ++ rest)))

token_user :
    (before user rest : Bytes)
    → occurs (codes "<Username>") before ≡ false
    → occurs (codes "<wsse:Username>") before ≡ false
    → Lacks b'<' user
    → length user < name_size
    → parse_ws_security_token (naming before user rest) ≡ some user
unfolding parse_ws_security_token
token_user before user rest no_name no_ns h fits = ground (
  arith,
  start_of_name before (user ++ (codes "</Username>" ++ rest)) no_name no_ns,
  end_of_name user rest h,
  take_short (name_size - 1) user (omega arith),
)

or-longer :
    (a b s t : Bytes)
    → (occurs a s || occurs b s) ≡ true
    → (occurs a (s ++ t) || occurs b (s ++ t)) ≡ true
or-longer a b s t h = ground (arith, occurs-longer a s t, occurs-longer b s t)

has_ws_security-longer : (s t : Bytes) → has_ws_security s ≡ true → has_ws_security (s ++ t) ≡ true
has_ws_security-longer s t h = ground (
  arith,
  or-longer (codes "<Security") (codes "<wsse:Security") s t,
  or-longer (codes "<UsernameToken") (codes "<wsse:UsernameToken") s t,
)

-- An ONVIF request (a whole HTTP request with its envelope) is accepted if the configured user name
-- stands in its first "<Username>" element, whatever password or digest stands behind the name, and
-- also if there is none. The openings of a "Security" and a "UsernameToken" element stand before it
-- (each with or without the prefix "wsse:"), and no opening "<wsse:Username>" does; the name holds no
-- "<" and has fewer than 64 bytes.
pub auth_check_onvif_request-token :
    (before rest : Bytes) (config : AuthConfig) (client : ClientInfo)
    → has_ws_security before ≡ true
    → occurs (codes "<Username>") before ≡ false
    → occurs (codes "<wsse:Username>") before ≡ false
    → Lacks b'<' config.username
    → length config.username < name_size
    → auth_check_onvif_request (naming before config.username rest) config client ≡ some success
unfolding auth_check_onvif_request
auth_check_onvif_request-token before rest config client security no_name no_ns h fits = ground (
  arith,
  has_ws_security-longer before
      (codes "<Username>" ++ (config.username ++ (codes "</Username>" ++ rest))) security,
  token_user before config.username rest no_name no_ns h fits,
  str_eq_refl config.username,
)
