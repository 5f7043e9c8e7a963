-- ===== src/Websocket/Licenses.antt =====
-- src/websocket/client.rs: the numbered lines of licenses are read back.
use escrow.Common.{
  ℕ, ◌<◌, ◌≡◌, refl, ap, ◌∙◌, ◌≢◌, Bool, true, false, not, none, some, List, [], ◌∷◌, ◌++◌, arith,
  ltb, ◌==◌, ==_refl, text_keys, side_keys, nat_eq, Text, codes,
}
use mathlib.Core.List.{append-nil}
use escrow.Strings.{decimal, is_ascii_digit}
use escrow.Panel.{strip_prefix, split, parse_digits}
use escrow.Panel.Decimals.{
  all, all-append, all-weaken, all-decimal, decimal-nil, parse_digits-decimal,
}
use escrow.Websocket.{
  take_while, drop_while, is_name_char, after_first, unstruck, or_none, extract_license_tier,
  License, entry_of, entry_at, u32_mod, parse_u32, numbered_entry, parse_line, parse_all_lines,
  parse_messages, parse_license_entries,
}

take_while-append :
    (p : ℕ → Bool) (xs ys : Text) (c : ℕ)
    → all p xs ≡ true
    → p c ≡ false
    → take_while p (xs ++ (c ∷ ys)) ≡ xs
take_while-append p [] ys c h k = rw k refl
take_while-append p (x ∷ xs) ys c h k =
    let first : p x ≡ true = ground (arith, h) in
    rw (first, take_while-append p xs ys c (ground (arith, h)) k) refl

drop_while-append :
    (p : ℕ → Bool) (xs ys : Text) (c : ℕ)
    → all p xs ≡ true
    → p c ≡ false
    → drop_while p (xs ++ (c ∷ ys)) ≡ c ∷ ys
drop_while-append p [] ys c h k = rw k refl
drop_while-append p (x ∷ xs) ys c h k =
    let first : p x ≡ true = ground (arith, h) in
    rw (first, drop_while-append p xs ys c (ground (arith, h)) k) refl

split-append :
    (sep : ℕ) (xs ys : Text)
    → all (λ c. not (c == sep)) xs ≡ true
    → split sep (xs ++ (sep ∷ ys)) ≡ xs ∷ split sep ys
unfolding split
split-append sep [] ys h = rw (==_refl sep) refl
split-append sep (x ∷ xs) ys h =
    let other : (x == sep) ≡ false = ground (arith, h) in
    rw (other, split-append sep xs ys (ground (arith, h))) refl

parse_u32-digits :
    (t : Text) (n : ℕ) → t ≢ [] → parse_digits 0 t ≡ some n → n < u32_mod → parse_u32 t ≡ some n
parse_u32-digits [] n h e l = absurd (h refl)
parse_u32-digits (c ∷ cs) n h e l =
    let small : ltb n u32_mod ≡ true = ground (arith, l) in rw (parse_u32, e, small) refl

parse_u32-decimal : (n : ℕ) → n < u32_mod → parse_u32 (decimal 20 n) ≡ some n
parse_u32-decimal n h =
    parse_u32-digits (decimal 20 n) n (decimal-nil 19 n)
      (parse_digits-decimal 20 n (omega (arith, h))) h

or_none-some : (t : Text) → t ≢ [] → or_none t ≡ t
or_none-some [] h = absurd (h refl)
or_none-some (c ∷ cs) h = refl

not_mark : (c : ℕ) (t : Text) → (c == 0xA7) ≡ false → strip_prefix (codes "§m") (c ∷ t) ≡ none
unfolding strip_prefix
not_mark c t h = ground (arith, h)

unstruck-name :
    (t rest : Text) → t ≢ [] → all is_name_char t ≡ true → unstruck (t ++ rest) ≡ t ++ rest
unstruck-name [] rest h a = absurd (h refl)
unstruck-name (c ∷ cs) rest h a =
    let other : strip_prefix (codes "§m") (c ∷ (cs ++ rest)) ≡ none =
      not_mark c (cs ++ rest) (ground (arith, a)) in
    rw (unstruck, other) refl

after_first-blank : (t : Text) → after_first (codes "§2") (codes " §2" ++ t) ≡ some t
unfolding after_first strip_prefix
after_first-blank t = refl

extract_license_tier-name :
    (t tail : Text)
    → t ≢ []
    → all is_name_char t ≡ true
    → extract_license_tier (codes " §2" ++ (t ++ (b' ' ∷ tail))) ≡ t
unfolding extract_license_tier
extract_license_tier-name t tail h a =
    ap (λ u. or_none (take_while is_name_char u)) (unstruck-name t (b' ' ∷ tail) h a)
    ∙ ap or_none (take_while-append is_name_char t tail b' ' a refl)
    ∙ or_none-some t h

-- A line with a number, and the text behind the tier.
abbrev pub render : License → Text → Text
render e tail =
    codes "§7"
    ++ (decimal 20 e.index
        ++ (codes "> §a" ++ (e.ign ++ (codes " §2" ++ (e.tier ++ (b' ' ∷ tail))))))

-- A license that a line can show.
abbrev pub IsShown : License → Type 0
IsShown e =
    (e.index < u32_mod)
    × (e.ign ≢ [])
    × (e.tier ≢ [])
    × (all is_name_char e.ign ≡ true)
    × (all is_name_char e.tier ≡ true)

entry_of-some :
    (index : ℕ) (ign rest : Text)
    → ign ≢ []
    → entry_of index ign rest
      ≡ record { ign = ign; index = index; tier = extract_license_tier rest } ∷ []
entry_of-some index [] rest h = absurd (h refl)
entry_of-some index (c ∷ cs) rest h = refl

entry_at-shown :
    (e : License) (tail : Text)
    → IsShown e
    → entry_at e.index (e.ign ++ (codes " §2" ++ (e.tier ++ (b' ' ∷ tail)))) ≡ e ∷ []
entry_at-shown e tail (l, i, t, a, b) =
    let rest = 0xA7 ∷ b'2' ∷ (e.tier ++ (b' ' ∷ tail)) in
    rw
      (
        take_while-append is_name_char e.ign rest b' ' a refl,
        drop_while-append is_name_char e.ign rest b' ' a refl,
        entry_of-some e.index e.ign (b' ' ∷ rest) i,
      )
      (ap (λ tier. record { ign = e.ign; index = e.index; tier = tier } ∷ [])
        (extract_license_tier-name e.tier tail t b))

numbered_entry-shown :
    (e : License) (tail : Text)
    → IsShown e
    → numbered_entry (
        decimal 20 e.index
        ++ (codes "> §a" ++ (e.ign ++ (codes " §2" ++ (e.tier ++ (b' ' ∷ tail))))))
      ≡ e ∷ []
unfolding strip_prefix
numbered_entry-shown e tail h =
    let behind = b' ' ∷ 0xA7 ∷ b'a' ∷ (e.ign ++ (codes " §2" ++ (e.tier ++ (b' ' ∷ tail)))) in
    rw
      (
        numbered_entry,
        drop_while-append is_ascii_digit (decimal 20 e.index) behind b'>' (all-decimal 20 e.index)
            refl,
        take_while-append is_ascii_digit (decimal 20 e.index) behind b'>' (all-decimal 20 e.index)
            refl,
        parse_u32-decimal e.index h.0,
      )
      (entry_at-shown e tail h)

not_unnumbered :
    (t rest : Text)
    → t ≢ []
    → all is_ascii_digit t ≡ true
    → strip_prefix (codes "§7> §a") (codes "§7" ++ (t ++ rest)) ≡ none
unfolding strip_prefix
not_unnumbered [] rest h a = absurd (h refl)
not_unnumbered (c ∷ cs) rest h a =
    let other : (b'>' == c) ≡ false = ground (arith, a) in rw other refl

parse_line-numbered :
    (counter : ℕ) (after : Text)
    → strip_prefix (codes "§7> §a") (codes "§7" ++ after) ≡ none
    → parse_line counter (codes "§7" ++ after) ≡ (counter, numbered_entry after)
unfolding parse_line
parse_line-numbered counter after h = rw (parse_line, h) refl

parse_line-render :
    (counter : ℕ) (e : License) (tail : Text)
    → IsShown e
    → parse_line counter (render e tail) ≡ (counter, e ∷ [])
parse_line-render counter e tail h =
    parse_line-numbered counter _
      (not_unnumbered (decimal 20 e.index) _ (decimal-nil 19 e.index) (all-decimal 20 e.index))
    ∙ ap (λ es. (counter, es)) (numbered_entry-shown e tail h)

abbrev pub in_line : ℕ → Bool
in_line c = not (c == 10)

abbrev pub render_all : List (License × Text) → Text
render_all [] = []
render_all ((e, tail) ∷ es) = render e tail ++ (10 ∷ render_all es)

abbrev pub licenses : List (License × Text) → List License
licenses [] = []
licenses ((e, tail) ∷ es) = e ∷ licenses es

abbrev pub AllShown : List (License × Text) → Type 0
AllShown [] = Unit
AllShown ((e, tail) ∷ es) =
    (IsShown e
      × (all in_line e.ign ≡ true)
      × (all in_line e.tier ≡ true)
      × (all in_line tail ≡ true))
    × AllShown es

render-in_line :
    (e : License) (tail : Text)
    → all in_line e.ign ≡ true
    → all in_line e.tier ≡ true
    → all in_line tail ≡ true
    → all in_line (render e tail) ≡ true
render-in_line e tail i t l =
    all-append in_line (decimal 20 e.index) _
      (all-weaken is_ascii_digit in_line (decimal 20 e.index) (λ c d. ground (arith, d))
        (all-decimal 20 e.index))
      (all-append in_line e.ign _ i (all-append in_line e.tier _ t l))

parse_all_lines-render :
    (counter : ℕ) (e : License) (tail : Text) (lines : List Text)
    → IsShown e
    → parse_all_lines counter (render e tail ∷ lines)
      ≡ ((parse_all_lines counter lines).0, e ∷ (parse_all_lines counter lines).1)
unfolding parse_all_lines
parse_all_lines-render counter e tail lines h = rw (parse_line-render counter e tail h) refl

last_line : (counter : ℕ) → parse_all_lines counter (split 10 []) ≡ (counter, [])
unfolding parse_all_lines split parse_line strip_prefix
last_line counter = refl

parse_all_lines-render_all :
    (counter : ℕ) (es : List (License × Text))
    → AllShown es
    → parse_all_lines counter (split 10 (render_all es)) ≡ (counter, licenses es)
parse_all_lines-render_all counter [] h = last_line counter
parse_all_lines-render_all counter ((e, tail) ∷ es) ((s, i, t, l), h) =
    rw
      (
        split-append 10 (render e tail) (render_all es) (render-in_line e tail i t l),
        parse_all_lines-render counter e tail (split 10 (render_all es)) s,
        parse_all_lines-render_all counter es h,
      )
      refl

-- The licenses that one message shows in numbered lines, each with any text behind the tier, are read
-- back in their order with their numbers, names and tiers.
pub parse_license_entries-render_all :
    (es : List (License × Text))
    → AllShown es
    → parse_license_entries (render_all es ∷ []) ≡ licenses es
unfolding parse_license_entries parse_messages
parse_license_entries-render_all es h =
    rw (parse_all_lines-render_all 0 es h) (append-nil (licenses es))
