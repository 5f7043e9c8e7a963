-- ===== src/Panel/Cookies.antt =====
-- src/web/server.rs: the cookie that a login sets, in the requests that follow.
use escrow.Common.{
  ℕ, ◌/◌, ◌%◌, ◌<◌, ◌≡◌, refl, ap, ◌∙◌, ◌≢◌, Bool, true, false, not, ◌&&◌, Option, none, some, List,
  [], ◌∷◌, ◌++◌, arith, ltb, ◌==◌, if◌then◌else◌, ==_refl, text_keys, side_keys, nat_eq, Text,
  codes, ℤ, pos, wrapping_add,
}
use escrow.Strings.{is_whitespace, trim_start, trim_end, trim, is_ascii_digit}
use escrow.Panel.{
  session_ttl_secs, to_text, display_i64, session_cookie_name, strip_prefix, split, cookie_of,
  find_map, extract_session_cookie, presented_tokens, split_once, leb_int, hex, hex_digit,
  is_public_path, sign_session, mint_session, request_is_authorized, set_cookie, login,
}
use escrow.Panel.Compare.{AllBytes}
use escrow.Panel.Decimals.{
  all, all-append, all-weaken, all-decimal, all-display_i64, split_once-append,
}
use escrow.Panel.Sessions.{same_bytes_refl, session_is_valid-mint_session}

-- The characters that a cookie's name and value may have.
abbrev is_plain : ℕ → Bool
is_plain c = ltb 32 c && ltb c 127 && not (c == b';')

trim_start-all : (t : Text) → all is_plain t ≡ true → trim_start t ≡ t
unfolding trim_start
trim_start-all [] h = refl
trim_start-all (c ∷ cs) h = let plain : is_whitespace c ≡ false = ground (arith, h) in rw plain refl

trim_end-all : (t : Text) → all is_plain t ≡ true → trim_end t ≡ t
unfolding trim_end
trim_end-all [] h = refl
trim_end-all (c ∷ []) h = let plain : is_whitespace c ≡ false = ground (arith, h) in rw plain refl
trim_end-all (c ∷ d ∷ cs) h = rw (trim_end-all (d ∷ cs) (ground (arith, h))) refl

trim-all : (t : Text) → all is_plain t ≡ true → trim t ≡ t
unfolding trim
trim-all t h = rw (trim_start-all t h) (trim_end-all t h)

split-all : (t : Text) → all is_plain t ≡ true → split b';' t ≡ t ∷ []
unfolding split
split-all [] h = refl
split-all (c ∷ cs) h =
    let other : (c == b';') ≡ false = ground (arith, h) in
    rw (other, split-all cs (ground (arith, h))) refl

pub strip_prefix-append : (p t : Text) → strip_prefix p (p ++ t) ≡ some t
unfolding strip_prefix
strip_prefix-append [] t = refl
strip_prefix-append (c ∷ p) t = rw (==_refl c) (strip_prefix-append p t)

digit-plain : (c : ℕ) → is_ascii_digit c ≡ true → is_plain c ≡ true
digit-plain c h = ground (arith, h)

hex_digit-plain : (d : ℕ) → d < 16 → is_plain (hex_digit d) ≡ true
hex_digit-plain d h = ground (arith, h)

hex-plain : (bs : List ℕ) → AllBytes bs → all is_plain (hex bs) ≡ true
hex-plain [] h = refl
hex-plain (b ∷ bs) (h, hs) =
    rw
      (
        hex_digit-plain (b / 16) (omega arith),
        hex_digit-plain (b % 16) (omega arith),
        hex-plain bs hs,
      )
      refl

name-plain : (port : ℕ) → all is_plain (session_cookie_name port ++ codes "=") ≡ true
unfolding session_cookie_name
name-plain port =
    all-append is_plain (codes "baf_session_" ++ to_text port) (codes "=")
      (all-append is_plain (codes "baf_session_") (to_text port) refl
        (all-weaken is_ascii_digit is_plain (to_text port) digit-plain (all-decimal 20 port)))
      refl

find_map-cookie_of :
    (port : ℕ) (part token : Text)
    → trim part ≡ part
    → strip_prefix (session_cookie_name port ++ codes "=") part ≡ some token
    → find_map (cookie_of port) (part ∷ []) ≡ some token
find_map-cookie_of port part token e h =
    let found : cookie_of port part ≡ some token =
      ap (strip_prefix (session_cookie_name port ++ codes "=")) e ∙ h in
    rw (find_map, found) refl

either : (b : Bool) → (if b then true else true) ≡ true
either false = refl
either true = refl

-- The part of a cookie that is sent back.
abbrev pub pair_of : Option Text → Option Text
pair_of none = none
pair_of (some cookie) = elim (split_once b';' cookie) [ none ↦ none | some p ↦ some p.0 ]

module _ (hmac : Text → Text → List ℕ)
    (is_hmac : (key message : Text) → AllBytes (hmac key message)) where
  mint_session-plain :
      (password : Text) (port : ℕ) (now : ℤ)
      → all is_plain (mint_session hmac password port now) ≡ true
  unfolding mint_session sign_session
  mint_session-plain password port now =
      all-append is_plain (display_i64 (wrapping_add now (pos session_ttl_secs))) _
        (all-display_i64 is_plain (wrapping_add now (pos session_ttl_secs)) digit-plain refl)
        (hex-plain _ (is_hmac password _))

  -- The cookie of a session, found again in the header.
  presented_tokens-mint_session :
      (password : Text) (port : ℕ) (now : ℤ)
      → presented_tokens
          (some ((session_cookie_name port ++ codes "=") ++ mint_session hmac password port now))
          none
          port
        ≡ mint_session hmac password port now ∷ []
  unfolding presented_tokens extract_session_cookie
  presented_tokens-mint_session password port now =
      let name = session_cookie_name port ++ codes "=" in
      let token = mint_session hmac password port now in
      let plain =
        all-append is_plain name token (name-plain port) (mint_session-plain password port now) in
      rw
        (
          split-all (name ++ token) plain,
          find_map-cookie_of port (name ++ token) token (trim-all (name ++ token) plain)
              (strip_prefix-append name token),
        )
        refl

  pair_of-append :
      (xs ys : Text) → all is_plain xs ≡ true → pair_of (some (xs ++ (b';' ∷ ys))) ≡ some xs
  pair_of-append xs ys h =
      rw
        (
          pair_of,
          split_once-append b';' xs ys
              (all-weaken is_plain (λ c. not (c == b';')) xs (λ c p. ground (arith, p)) h),
        )
        refl

  pair_of-set_cookie :
      (name token : Text) (tls : Bool)
      → all is_plain (name ++ codes "=" ++ token) ≡ true
      → pair_of (some (set_cookie name token tls)) ≡ some (name ++ codes "=" ++ token)
  unfolding set_cookie
  pair_of-set_cookie name token tls h = pair_of-append (name ++ codes "=" ++ token) _ h

  login-expected :
      (expected : Text) (port : ℕ) (now : ℤ) (tls : Bool)
      → expected ≢ []
      → AllBytes expected
      → login hmac (some expected) expected port now tls ≡ (
        true,
        some (set_cookie (session_cookie_name port) (mint_session hmac expected port now) tls),
      )
  unfolding login
  login-expected [] port now tls h b = absurd (h refl)
  login-expected (c ∷ cs) port now tls h b = rw (same_bytes_refl (c ∷ cs) b) refl

  served :
      (expected path : Text) (port : ℕ) (now later : ℤ)
      → leb_int (wrapping_add now (pos session_ttl_secs)) later ≡ false
      → request_is_authorized hmac
          (some expected)
          port
          later
          path
          (mint_session hmac expected port now ∷ [])
        ≡ true
  unfolding request_is_authorized
  served [] path port now later e = refl
  served (c ∷ cs) path port now later e =
      rw (session_is_valid-mint_session hmac (c ∷ cs) port now later is_hmac, e)
        (either (is_public_path path))

  -- After a login with the right password, the request that brings the first part of the cookie is
  -- served, whatever its path, until the session expires.
  pub request_is_authorized-login :
      (expected path : Text) (port : ℕ) (now later : ℤ) (tls : Bool)
      → expected ≢ []
      → AllBytes expected
      → leb_int (wrapping_add now (pos session_ttl_secs)) later ≡ false
      → let answer = login hmac (some expected) expected port now tls in
        (answer.0 ≡ true)
        × (request_is_authorized hmac
              (some expected)
              port
              later
              path
              (presented_tokens (pair_of answer.1) none port)
            ≡ true)
  request_is_authorized-login expected path port now later tls h b e =
      let name = session_cookie_name port in
      let token = mint_session hmac expected port now in
      let plain =
        all-append is_plain (name ++ codes "=") token (name-plain port)
          (mint_session-plain expected port now) in
      rw
        (
          login-expected expected port now tls h b,
          pair_of-set_cookie name token tls plain,
          presented_tokens-mint_session expected port now,
        )
        (refl, served expected path port now later e)
