-- ===== src/Panel.antt =====
-- src/web/server.rs: the sessions of the web panel, and which requests it serves. A text is the list
-- of the bytes of its UTF-8 form. HMAC-SHA256, from the password and a message to the bytes of the
-- signature, is a parameter.
pub mod Compare
pub mod Decimals
pub mod Messages
pub mod Sessions
pub mod Cookies
mod Examples
use escrow.Common.{
  ℕ, zero, suc, ◌+◌, ◌-◌, ◌*◌, ◌/◌, ◌%◌, ◌^◌, ◌≤◌, ◌<◌, ◌≡◌, refl, sym, ap, ◌∙◌, ◌≢◌, ◌↔◌, ◌⊎◌, inl,
  inr, Bool, true, false, not, ◌&&◌, ◌||◌, Option, none, some, List, [], ◌∷◌, ◌++◌, map, reverse,
  arith, ltb, leb, ◌==◌, if◌then◌else◌, bool_eq, is_some, or_else, Bool-cases, Option-cases,
  ==_refl, ==_eq, length, head?, drop, length-append, length-map, length-drop, retain, any, find,
  count, remove_last, count-append, retain-append, length-retain-le, length-retain, count_split,
  find-some, find-any, find-any_of, any-retain, any-append, count-any, Eq, lookup, insert, remove,
  lookup-insert, lookup-remove, DistinctKeys, text_keys, side_keys, nat_eq, Text, codes, text_eq,
  text_eq_refl, text_eq_eq, text_eq_sym, ℤ, pos, negsuc, u64_mod, wrapping_add, wrapping_sub, IsI64,
  int_eq, int_eq_iff, is_positive, wrapping_sub-wrapping_add, wrapping_sub_self, wrapping_sub_shift,
}
use escrow.Strings.{trim, starts_with, decimal, is_ascii_digit}

abbrev pub session_ttl_secs : ℕ
session_ttl_secs = 604_800

abbrev pub to_text : ℕ → Text
to_text n = decimal 20 n

-- An `i64` in decimal digits.
abbrev pub display_i64 : ℤ → Text
display_i64 (pos n) = to_text n
display_i64 (negsuc n) = b'-' ∷ to_text (n + 1)

unfoldable pub session_cookie_name : ℕ → Text
unfolding decimal
session_cookie_name port = codes "baf_session_" ++ to_text port

unfoldable pub strip_prefix : Text → Text → Option Text
strip_prefix [] t = some t
strip_prefix (p ∷ ps) [] = none
strip_prefix (p ∷ ps) (c ∷ cs) = let rest = strip_prefix ps cs in if p == c then rest else none

-- `split` at a character.
unfoldable pub split : ℕ → Text → List Text
split sep [] = [] ∷ []
split sep (c ∷ cs) =
    let rest = split sep cs in
    if c == sep then [] ∷ rest else (elim rest [ [] ↦ (c ∷ []) ∷ [] | t ∷ ts ↦ (c ∷ t) ∷ ts ])

-- The cookie of the panel in one part of the header.
abbrev pub cookie_of : ℕ → Text → Option Text
cookie_of port part = strip_prefix (session_cookie_name port ++ codes "=") (trim part)

abbrev pub find_map : (Text → Option Text) → List Text → Option Text
find_map f [] = none
find_map f (t ∷ ts) = let rest = find_map f ts in elim (f t) [ none ↦ rest | some c ↦ some c ]

-- `cookie` is the value of the request's header, if there is one in visible ASCII characters.
unfoldable pub extract_session_cookie : Option Text → ℕ → Option Text
unfolding session_cookie_name strip_prefix split trim
extract_session_cookie none port = none
extract_session_cookie (some cookie) port = find_map (cookie_of port) (split b';' cookie)

abbrev pub option_list : Option Text → List Text
option_list none = []
option_list (some t) = t ∷ []

abbrev pub bearer : Option Text → Option Text
bearer none = none
bearer (some auth) = strip_prefix (codes "Bearer ") auth

-- The values of the two headers.
unfoldable pub presented_tokens : Option Text → Option Text → ℕ → List Text
unfolding extract_session_cookie strip_prefix
presented_tokens cookie authorization port =
    option_list (extract_session_cookie cookie port) ++ option_list (bearer authorization)

abbrev pub hex_digit : ℕ → ℕ
hex_digit d = if ltb d 10 then b'0' + d else b'a' + (d - 10)

abbrev pub hex : List ℕ → Text
hex [] = []
hex (b ∷ bs) = hex_digit (b / 16) ∷ hex_digit (b % 16) ∷ hex bs

-- The text before the first `sep` and the text behind it.
unfoldable pub split_once : ℕ → Text → Option (Text × Text)
split_once sep [] = none
split_once sep (c ∷ cs) =
    let rest = split_once sep cs in
    if c == sep then some ([], cs) else (elim rest [ none ↦ none | some p ↦ some (c ∷ p.0, p.1) ])

-- A digit at a time; `none` at a character that is not one.
unfoldable pub parse_digits : ℕ → Text → Option ℕ
parse_digits v [] = some v
parse_digits v (c ∷ cs) =
    let rest = parse_digits (v * 10 + (c - b'0')) cs in if is_ascii_digit c then rest else none

abbrev pub i64_max : ℕ
i64_max = 9_223_372_036_854_775_807

abbrev pub positive : Option ℕ → Option ℤ
positive none = none
positive (some n) = if leb n i64_max then some (pos n) else none

abbrev pub negative : Option ℕ → Option ℤ
negative none = none
negative (some zero) = some (pos 0)
negative (some (suc n)) = if leb n i64_max then some (negsuc n) else none

abbrev pub digits_after : (Option ℕ → Option ℤ) → Text → Option ℤ
digits_after sign [] = none
digits_after sign (c ∷ cs) = sign (parse_digits 0 (c ∷ cs))

-- `parse::<i64>`.
unfoldable pub parse_i64 : Text → Option ℤ
unfolding parse_digits
parse_i64 [] = none
parse_i64 (c ∷ cs) =
    if c == b'-'
    then digits_after negative cs
    else if c == b'+'
    then digits_after positive cs
    else positive (parse_digits 0 (c ∷ cs))

abbrev pub leb_int : ℤ → ℤ → Bool
leb_int (pos m) (pos n) = leb m n
leb_int (pos m) (negsuc n) = false
leb_int (negsuc m) (pos n) = true
leb_int (negsuc m) (negsuc n) = leb n m

-- `^` and `|` on numbers of `w` bits.
abbrev pub xor : ℕ → ℕ → ℕ → ℕ
xor zero a b = 0
xor (suc w) a b = 2 * xor w (a / 2) (b / 2) + (a % 2 + b % 2) % 2

abbrev pub bit_or : ℕ → ℕ → ℕ → ℕ
bit_or zero a b = 0
bit_or (suc w) a b = 2 * bit_or w (a / 2) (b / 2) + (if (a % 2 + b % 2) == 0 then 0 else 1)

abbrev pub fold_bytes : ℕ → Text → Text → ℕ
fold_bytes acc [] ys = acc
fold_bytes acc (x ∷ xs) [] = acc
fold_bytes acc (x ∷ xs) (y ∷ ys) = fold_bytes (bit_or 8 acc (xor 8 x y)) xs ys

-- The comparison that takes the same time wherever the texts differ.
unfoldable pub same_bytes : Text → Text → Bool
same_bytes expected given = (length expected == length given) && (fold_bytes 0 expected given == 0)

unfoldable pub is_public_path : Text → Bool
is_public_path path =
    text_eq path (codes "/")
    || text_eq path (codes "/api/login")
    || text_eq path (codes "/api/profit/public")
    || text_eq path (codes "/api/og-image.png")
    || text_eq path (codes "/shared-theme.css")
    || starts_with (codes "/share/") path
    || (starts_with (codes "/api/share/") path && starts_with (codes "stats/") (reverse path))

-- The password that is enforced, if any.
abbrev pub enforced : Option Text → Option Text
enforced none = none
enforced (some []) = none
enforced (some (c ∷ cs)) = some (c ∷ cs)

unfoldable pub set_cookie : Text → Text → Bool → Text
unfolding decimal
set_cookie name token tls =
    name
    ++ codes "="
    ++ token
    ++ (b';'
        ∷ ((if tls then codes " Secure;" else [])
            ++ codes " Path=/; HttpOnly; SameSite=Strict; Max-Age="
            ++ to_text session_ttl_secs))

abbrev pub login_answer : Bool → Text → Bool × Option Text
login_answer false cookie = (false, none)
login_answer true cookie = (true, some cookie)

module _ (hmac : Text → Text → List ℕ) where
  unfoldable pub sign_session : Text → ℕ → ℤ → Text
  unfolding decimal
  sign_session password port expiry =
      hex (hmac password (to_text port ++ (b':' ∷ display_i64 expiry)))

  -- `now` is the time of the system's clock.
  unfoldable pub mint_session : Text → ℕ → ℤ → Text
  unfolding sign_session decimal wrapping_add
  mint_session password port now =
      let expiry = wrapping_add now (pos session_ttl_secs) in
      display_i64 expiry ++ (b'.' ∷ sign_session password port expiry)

  abbrev pub signature_ok : Text → ℕ → Text → ℤ → ℤ → Bool
  signature_ok password port signature now expiry =
      not (leb_int expiry now) && same_bytes (sign_session password port expiry) signature

  abbrev pub expiry_ok : Text → ℕ → Text → ℤ → Option ℤ → Bool
  expiry_ok password port signature now none = false
  expiry_ok password port signature now (some expiry) =
      signature_ok password port signature now expiry

  unfoldable pub session_is_valid : Text → Text → ℕ → ℤ → Bool
  unfolding split_once parse_i64 same_bytes sign_session
  session_is_valid token password port now = elim (split_once b'.' token) [
    | none ↦ false
    | some p ↦ expiry_ok password port p.1 now (parse_i64 p.0)
  ]

  unfoldable pub request_is_authorized : Option Text → ℕ → ℤ → Text → List Text → Bool
  unfolding session_is_valid is_public_path
  request_is_authorized password port now path presented = elim (enforced password) [
    | none ↦ true
    | some p ↦
        if is_public_path path then true else any (λ t. session_is_valid t p port now) presented
  ]

  -- What a login answers: whether it succeeds, and the cookie that it sets, by whether the panel is
  -- served over TLS.
  unfoldable pub login : Option Text → Text → ℕ → ℤ → Bool → Bool × Option Text
  unfolding mint_session same_bytes session_cookie_name set_cookie
  login password given port now tls = elim (enforced password) [
    | none ↦ (true, none)
    | some expected ↦
        login_answer (same_bytes given expected)
          (set_cookie (session_cookie_name port) (mint_session expected port now) tls)
  ]
