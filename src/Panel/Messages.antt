-- ===== src/Panel/Messages.antt =====
-- src/web/server.rs: sessions of which the port or the password differs are signed differently.
use escrow.Common.{
  ℕ, ◌/◌, ◌%◌, ◌<◌, ◌≡◌, refl, ◌≢◌, not, List, [], ◌∷◌, ◌++◌, arith, ◌==◌, text_keys, side_keys,
  nat_eq, Text, ℤ,
}
use escrow.Panel.{display_i64, hex, hex_digit, sign_session}
use escrow.Panel.Compare.{AllBytes}
use escrow.Panel.Decimals.{parse_digits-decimal, split_once-append, all-weaken, all-decimal}
use escrow.Strings.{decimal, is_ascii_digit}

-- What a panel's session is signed for: its port and its expiry.
abbrev pub message : ℕ → ℤ → Text
message port expiry = decimal 20 port ++ (b':' ∷ display_i64 expiry)

hex_digit_injective : (c d : ℕ) → c < 16 → d < 16 → hex_digit c ≡ hex_digit d → c ≡ d
hex_digit_injective c d h k e = ground (arith, e)

hex_injective : (xs ys : List ℕ) → AllBytes xs → AllBytes ys → hex xs ≡ hex ys → xs ≡ ys
hex_injective [] [] h k e = refl
hex_injective [] (y ∷ ys) h k e = cc
hex_injective (x ∷ xs) [] h k e = cc
hex_injective (x ∷ xs) (y ∷ ys) (h, hs) (k, ks) e =
    let (high, low, rest) = cons_digits e in
    let above = hex_digit_injective (x / 16) (y / 16) (omega arith) (omega arith) high in
    let below = hex_digit_injective (x % 16) (y % 16) (omega arith) (omega arith) low in
    let same : x ≡ y = omega arith in cc (same, hex_injective xs ys hs ks rest)
  where
    cons_digits : {a b c d : ℕ} {s t : Text} → a ∷ b ∷ s ≡ c ∷ d ∷ t → (a ≡ c) × (b ≡ d) × (s ≡ t)
    cons_digits q = (cc q, cc q, cc q)

pub message_port :
    (port port' : ℕ) (expiry : ℤ)
    → port < 65536
    → port' < 65536
    → message port' expiry ≡ message port expiry
    → port' ≡ port
message_port port port' expiry h k e =
    let digits = λ (p : ℕ). split_once-append b':' (decimal 20 p) (display_i64 expiry) (
      all-weaken is_ascii_digit (λ c. not (c == b':')) (decimal 20 p) (λ c d. ground (arith, d))
        (all-decimal 20 p)) in
    let same : decimal 20 port' ≡ decimal 20 port = cc (digits port, digits port', e) in
    let read = parse_digits-decimal 20 port (omega arith) in
    let read' = parse_digits-decimal 20 port' (omega arith) in cc (read, read', same)

pub sign_session-differ :
    (hmac : Text → Text → List ℕ) (password other : Text) (port port' : ℕ) (expiry : ℤ)
    → ((key message : Text) → AllBytes (hmac key message))
    → hmac other (message port' expiry) ≢ hmac password (message port expiry)
    → sign_session hmac other port' expiry ≢ sign_session hmac password port expiry
unfolding sign_session
sign_session-differ hmac password other port port' expiry h d e = d (
    hex_injective (hmac other (message port' expiry)) (hmac password (message port expiry))
      (h other (message port' expiry)) (h password (message port expiry)) e)
