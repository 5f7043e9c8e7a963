-- ===== src/Panel/Sessions.antt =====
-- src/web/server.rs: what a session is good for.
use escrow.Common.{
  ℕ, ◌-◌, ◌/◌, ◌%◌, ◌<◌, ◌≡◌, refl, sym, ◌∙◌, ◌≢◌, inl, inr, true, false, not, Option, none, some,
  List, [], ◌∷◌, ◌++◌, arith, ltb, ◌==◌, if◌then◌else◌, Bool-cases, Option-cases, text_keys,
  side_keys, nat_eq, Text, text_eq, text_eq_refl, text_eq_eq, ℤ, pos, negsuc, u64_mod, wrapping_add,
  IsI64,
}
use escrow.Panel.{
  session_ttl_secs, display_i64, parse_i64, split_once, leb_int, same_bytes, hex, hex_digit,
  is_public_path, sign_session, mint_session, signature_ok, expiry_ok, session_is_valid,
  request_is_authorized,
}
use escrow.Panel.Compare.{AllBytes, same_bytes-text_eq}
use escrow.Panel.Decimals.{parse_i64-display_i64, split_once-append, all-display_i64}
use escrow.Panel.Messages.{message, message_port, sign_session-differ}

IsI64-of_word :
    (w : ℕ)
    → w < u64_mod
    → IsI64 (if ltb w 9223372036854775808 then pos w else negsuc (u64_mod - 1 - w))
IsI64-of_word w h = elim (Bool-cases (ltb w 9223372036854775808)) [
  | inl e ↦ rw e (ground (arith, e))
  | inr e ↦ rw e (ground (arith, h, e))
]

IsI64-wrapping_add : (a b : ℤ) → IsI64 (wrapping_add a b)
unfolding wrapping_add
IsI64-wrapping_add a b = IsI64-of_word _ (omega arith)

session_is_valid-none :
    (hmac : Text → Text → List ℕ) (token password : Text) (port : ℕ) (now : ℤ)
    → split_once b'.' token ≡ none
    → session_is_valid hmac token password port now ≡ false
unfolding session_is_valid
session_is_valid-none hmac token password port now e = rw (session_is_valid, e) refl

session_is_valid-some :
    (hmac : Text → Text → List ℕ) (token password raw signature : Text) (port : ℕ) (now : ℤ)
    (expiry : Option ℤ)
    → split_once b'.' token ≡ some (raw, signature)
    → parse_i64 raw ≡ expiry
    → session_is_valid hmac token password port now
      ≡ expiry_ok hmac password port signature now expiry
unfolding session_is_valid
session_is_valid-some hmac token password raw signature port now expiry e h =
    rw (session_is_valid, e, h) refl

-- The parts of a token that was minted.
session_is_valid-parts :
    (hmac : Text → Text → List ℕ) (password signature : Text) (port : ℕ) (expiry now : ℤ)
    → IsI64 expiry
    → session_is_valid hmac (display_i64 expiry ++ (b'.' ∷ signature)) password port now
      ≡ signature_ok hmac password port signature now expiry
session_is_valid-parts hmac password signature port expiry now h =
    session_is_valid-some hmac (display_i64 expiry ++ (b'.' ∷ signature)) password
      (display_i64 expiry) signature port now (some expiry)
      (split_once-append b'.' (display_i64 expiry) signature
        (all-display_i64 (λ c. not (c == b'.')) expiry (λ c d. ground (arith, d)) refl))
      (parse_i64-display_i64 expiry h)

session_is_valid-mint :
    (hmac : Text → Text → List ℕ) (password other : Text) (port port' : ℕ) (minted now : ℤ)
    → let expiry = wrapping_add minted (pos session_ttl_secs) in
      session_is_valid hmac (mint_session hmac password port minted) other port' now
      ≡ signature_ok hmac other port' (sign_session hmac password port expiry) now expiry
unfolding mint_session
session_is_valid-mint hmac password other port port' minted now =
    session_is_valid-parts hmac other
      (sign_session hmac password port (wrapping_add minted (pos session_ttl_secs))) port'
      (wrapping_add minted (pos session_ttl_secs)) now
      (IsI64-wrapping_add minted (pos session_ttl_secs))

hex_digit-lt : (d : ℕ) → d < 16 → hex_digit d < 256
hex_digit-lt d h = ground arith

AllBytes-hex : (bs : List ℕ) → AllBytes bs → AllBytes (hex bs)
AllBytes-hex [] h = tt
AllBytes-hex (b ∷ bs) (h, hs) =
    (hex_digit-lt (b / 16) (omega arith), (hex_digit-lt (b % 16) (omega arith), AllBytes-hex bs hs))

AllBytes-sign_session :
    (hmac : Text → Text → List ℕ) (password : Text) (port : ℕ) (expiry : ℤ)
    → ((key message : Text) → AllBytes (hmac key message))
    → AllBytes (sign_session hmac password port expiry)
unfolding sign_session
AllBytes-sign_session hmac password port expiry h = AllBytes-hex _ (h password _)

pub same_bytes_refl : (t : Text) → AllBytes t → same_bytes t t ≡ true
same_bytes_refl t h = same_bytes-text_eq t t h h ∙ text_eq_refl t

-- A session that was minted is valid until it expires, and from then on no more.
pub session_is_valid-mint_session :
    (hmac : Text → Text → List ℕ) (password : Text) (port : ℕ) (minted now : ℤ)
    → ((key message : Text) → AllBytes (hmac key message))
    → session_is_valid hmac (mint_session hmac password port minted) password port now
      ≡ not (leb_int (wrapping_add minted (pos session_ttl_secs)) now)
session_is_valid-mint_session hmac password port minted now h =
    let expiry = wrapping_add minted (pos session_ttl_secs) in
    rw
      (
        session_is_valid-mint hmac password password port port minted now,
        same_bytes_refl (sign_session hmac password port expiry)
            (AllBytes-sign_session hmac password port expiry h),
      )
      (ground arith)

text_eq-differ : (a b : Text) → a ≢ b → text_eq a b ≡ false
text_eq-differ a b h = elim (Bool-cases (text_eq a b)) [
  | inl e ↦ absurd (h (text_eq_eq a b e))
  | inr e ↦ e
]

AllBytes-split_once :
    (sep : ℕ) (t xs ys : Text) → split_once sep t ≡ some (xs, ys) → AllBytes t → AllBytes ys
unfolding split_once
AllBytes-split_once sep [] xs ys e b = absurd (cc e)
AllBytes-split_once sep (c ∷ cs) xs ys e (b, bs) = elim (Bool-cases (c == sep)) [
  | inl h ↦ let tail : cs ≡ ys = ground (arith, rw h at e) in rw (sym tail) bs
  | inr h ↦ elim (Option-cases (split_once sep cs)) [
    | inl n ↦ absurd (ground (arith, rw (h, n) at e))
    | inr (p, n) ↦
        let tail : p.1 ≡ ys = ground (arith, rw (h, n) at e) in
        rw (sym tail) (AllBytes-split_once sep cs p.0 p.1 n bs)
  ]
]

-- Whether the part before the mark is an expiry that lies ahead and that the part behind it signs.
abbrev pub IsUnsigned : (ℤ → Text) → ℤ → Text → Option ℤ → Type 0
IsUnsigned sign now signature none = Unit
IsUnsigned sign now signature (some expiry) = leb_int expiry now ≡ false → sign expiry ≢ signature

expiry_ok-IsUnsigned :
    (hmac : Text → Text → List ℕ) (password signature : Text) (port : ℕ) (now : ℤ)
    (expiry : Option ℤ)
    → ((key message : Text) → AllBytes (hmac key message))
    → AllBytes signature
    → IsUnsigned (sign_session hmac password port) now signature expiry
    → expiry_ok hmac password port signature now expiry ≡ false
expiry_ok-IsUnsigned hmac password signature port now none h b f = refl
expiry_ok-IsUnsigned hmac password signature port now (some e) h b f =
    rw
      (same_bytes-text_eq (sign_session hmac password port e) signature
        (AllBytes-sign_session hmac password port e h) b)
      (elim (Bool-cases (leb_int e now)) [
        | inl l ↦ rw l refl
        | inr l ↦ rw (l, text_eq-differ (sign_session hmac password port e) signature (f l)) refl
      ])

-- A token is valid only if an expiry that lies in the future stands before its first full stop and
-- the signature of that expiry, for the panel and the password, behind it.
pub session_is_valid-IsUnsigned :
    (hmac : Text → Text → List ℕ) (token password : Text) (port : ℕ) (now : ℤ)
    → ((key message : Text) → AllBytes (hmac key message))
    → AllBytes token
    → ((raw signature : Text)
        → split_once b'.' token ≡ some (raw, signature)
        → IsUnsigned (sign_session hmac password port) now signature (parse_i64 raw))
    → session_is_valid hmac token password port now ≡ false
session_is_valid-IsUnsigned hmac token password port now h b f =
    elim (Option-cases (split_once b'.' token)) [
      | inl e ↦ session_is_valid-none hmac token password port now e
      | inr (p, e) ↦
          session_is_valid-some hmac token password p.0 p.1 port now (parse_i64 p.0) e refl
          ∙ expiry_ok-IsUnsigned hmac password p.1 port now (parse_i64 p.0) h
              (AllBytes-split_once b'.' token p.0 p.1 e b) (f p.0 p.1 e)
    ]

-- The request for a page that is not public, with a session of another password or of the panel on
-- another port, is refused, if the authentication codes of two keys or two messages that differ do:
-- those of the session's port and expiry under the one password and under the other.
pub request_is_authorized-mint_session :
    (hmac : Text → Text → List ℕ) (password other path : Text) (port port' : ℕ) (minted now : ℤ)
    → ((key message : Text) → AllBytes (hmac key message))
    → port < 65536
    → port' < 65536
    → other ≢ []
    → is_public_path path ≡ false
    → (let expiry = wrapping_add minted (pos session_ttl_secs) in
        (other ≡ password → message port' expiry ≢ message port expiry)
        → hmac other (message port' expiry) ≢ hmac password (message port expiry))
    → (other ≡ password → port' ≢ port)
    → request_is_authorized hmac
        (some other)
        port'
        now
        path
        (mint_session hmac password port minted ∷ [])
      ≡ false
unfolding request_is_authorized
request_is_authorized-mint_session hmac password [] path port port' minted now h b b' o p d a =
    absurd (o refl)
request_is_authorized-mint_session hmac password (c ∷ cs) path port port' minted now h b b' o p d
      a =
    let expiry = wrapping_add minted (pos session_ttl_secs) in
    let unlike =
      sign_session-differ hmac password (c ∷ cs) port port' expiry h
        (d (λ e m. a e (message_port port port' expiry b b' m))) in
    rw
      (
        p,
        session_is_valid-mint hmac password (c ∷ cs) port port' minted now
            ∙ expiry_ok-IsUnsigned hmac (c ∷ cs) (sign_session hmac password port expiry) port' now
                (some expiry) h (AllBytes-sign_session hmac password port expiry h) (λ l. unlike),
      )
      refl
