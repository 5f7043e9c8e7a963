-- ===== src/Panel/Examples.antt =====
-- src/web/server.rs: the sessions of a panel on port 8081.
use escrow.Common.{
  ℕ, ◌+◌, ◌*◌, ◌%◌, ◌≡◌, refl, sym, ◌≢◌, true, false, not, none, some, List, [], ◌∷◌, arith, length,
  text_keys, side_keys, nat_eq, Text, codes, text_eq, pos, wrapping_add,
}
use escrow.Panel.{
  same_bytes, is_public_path, presented_tokens, sign_session, mint_session, session_is_valid,
  request_is_authorized, login, leb_int, session_ttl_secs, split_once, parse_i64,
}
use escrow.Panel.Compare.{AllBytes, same_bytes-text_eq}
use escrow.Panel.Messages.{message}
use escrow.Panel.Sessions.{
  session_is_valid-mint_session, session_is_valid-IsUnsigned, request_is_authorized-mint_session,
  IsUnsigned,
}
use escrow.Strings.{decimal}
use escrow.Panel.Cookies.{pair_of, request_is_authorized-login}

-- A signature of two bytes.
abbrev toy_hmac : Text → Text → List ℕ
toy_hmac key message = (length key * 7 + 3) % 256 ∷ (length message + 11) % 256 ∷ []

toy_hmac-AllBytes : (key message : Text) → AllBytes (toy_hmac key message)
toy_hmac-AllBytes key message = (omega arith, (omega arith, tt))

abbrev secret : Text
secret = codes "hunter2"

-- The other header is read too, and other cookies are skipped.
both_headers :
    presented_tokens (some (codes "a=1; baf_session_8081=x; b")) (some (codes "Bearer y")) 8081
    ≡ codes "x" ∷ codes "y" ∷ []
unfolding presented_tokens
both_headers = refl

shared_stats : is_public_path (codes "/api/share/abc/stats") ≡ true
unfolding is_public_path
shared_stats = refl

status_page : is_public_path (codes "/api/status") ≡ false
unfolding is_public_path
status_page = refl

minted : mint_session toy_hmac secret 8081 (pos 1000) ≡ codes "605800.3416"
unfolding mint_session
minted = refl

abc-AllBytes : AllBytes (codes "abc")
abc-AllBytes = (omega arith, (omega arith, (omega arith, tt)))

abd-AllBytes : AllBytes (codes "abd")
abd-AllBytes = (omega arith, (omega arith, (omega arith, tt)))

same_bytes-text_eq_example :
    same_bytes (codes "abc") (codes "abd") ≡ text_eq (codes "abc") (codes "abd")
same_bytes-text_eq_example =
    same_bytes-text_eq (codes "abc") (codes "abd") abc-AllBytes abd-AllBytes

session_is_valid-mint_session_example :
    session_is_valid toy_hmac
      (mint_session toy_hmac secret 8081 (pos 1000))
      secret
      8081
      (pos 605_799)
    ≡ not (leb_int (wrapping_add (pos 1000) (pos session_ttl_secs)) (pos 605_799))
session_is_valid-mint_session_example =
    session_is_valid-mint_session toy_hmac secret 8081 (pos 1000) (pos 605_799) toy_hmac-AllBytes

abbrev forged : Text
forged = codes "9.fe"

forged-AllBytes : AllBytes forged
forged-AllBytes = (omega arith, (omega arith, (omega arith, (omega arith, tt))))

forged-IsUnsigned :
    (raw signature : Text)
    → split_once b'.' forged ≡ some (raw, signature)
    → IsUnsigned (sign_session toy_hmac secret 8081) (pos 5) signature (parse_i64 raw)
unfolding split_once parse_i64 sign_session
forged-IsUnsigned raw signature e =
    let first : codes "9" ≡ raw = ground (arith, e) in
    let second : codes "fe" ≡ signature = ground (arith, e) in
    rw (sym first, sym second) (λ l h. cc h)

session_is_valid-IsUnsigned_example : session_is_valid toy_hmac forged secret 8081 (pos 5) ≡ false
session_is_valid-IsUnsigned_example =
    session_is_valid-IsUnsigned toy_hmac forged secret 8081 (pos 5) toy_hmac-AllBytes
      forged-AllBytes forged-IsUnsigned

first_byte : {a b : ℕ} {s t : Text} → a ∷ s ≡ b ∷ t → a ≡ b
first_byte h = cc h

other_code :
    let expiry = wrapping_add (pos 1000) (pos session_ttl_secs) in
    toy_hmac (codes "better") (message 8082 expiry) ≢ toy_hmac secret (message 8081 expiry)
unfolding wrapping_add decimal
other_code h = absurd (omega (arith, first_byte h))

request_is_authorized-mint_session_example :
    request_is_authorized toy_hmac
      (some (codes "better"))
      8082
      (pos 2000)
      (codes "/api/status")
      (mint_session toy_hmac secret 8081 (pos 1000) ∷ [])
    ≡ false
request_is_authorized-mint_session_example =
    request_is_authorized-mint_session toy_hmac secret (codes "better") (codes "/api/status") 8081
      8082 (pos 1000) (pos 2000) toy_hmac-AllBytes (omega arith) (omega arith) (λ h. cc h)
      status_page (λ h. other_code) (λ h p. absurd (omega arith))

not_expired : leb_int (wrapping_add (pos 1000) (pos session_ttl_secs)) (pos 2000) ≡ false
unfolding wrapping_add
not_expired = refl

request_is_authorized-login_example :
    (let answer = login toy_hmac (some (codes "abc")) (codes "abc") 8081 (pos 1000) true in
      (answer.0 ≡ true)
      × (request_is_authorized toy_hmac
            (some (codes "abc"))
            8081
            (pos 2000)
            (codes "/api/status")
            (presented_tokens (pair_of answer.1) none 8081)
          ≡ true))
request_is_authorized-login_example =
    request_is_authorized-login toy_hmac toy_hmac-AllBytes (codes "abc") (codes "/api/status") 8081
      (pos 1000) (pos 2000) true (λ h. cc h) abc-AllBytes not_expired
