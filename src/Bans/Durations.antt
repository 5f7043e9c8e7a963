-- ===== src/Bans/Durations.antt =====
-- src/webhook.rs: the durations of bans.
use escrow.Common.{
  ℕ, zero, suc, ◌+◌, ◌*◌, ◌/◌, ◌%◌, ◌^◌, ◌≤◌, ◌<◌, ◌≡◌, refl, ap, ◌∙◌, ◌≢◌, inl, inr, Bool, true,
  false, some, List, [], ◌∷◌, ◌++◌, arith, ltb, Bool-cases, text_keys, side_keys, nat_eq, Text,
}
use mathlib.Core.List.{reverse_aux}
use native.Mathlib.Nat.{pow-suc}
use escrow.Strings.{decimal, is_ascii_digit, to_ascii_lowercase}
use escrow.Panel.Decimals.{all, all-decimal, decimal-nil}
use escrow.Bans.{
  u64_max, saturating, unit_secs, value_of, parse_u64, parse_tokens, parse_ban_duration_secs,
}

-- The digits in front of what follows.
parse_tokens-digits :
    (total : ℕ) (matched : Bool) (digits : List ℕ) (xs rest : Text)
    → all is_ascii_digit xs ≡ true
    → parse_tokens total matched digits (xs ++ rest)
      ≡ parse_tokens total matched (reverse_aux xs digits) rest
unfolding parse_tokens
parse_tokens-digits total matched digits [] rest h = refl
parse_tokens-digits total matched [] (x ∷ xs) rest h =
    let digit : is_ascii_digit x ≡ true = ground (arith, h) in
    rw (parse_tokens, digit)
      (parse_tokens-digits total matched (x ∷ []) xs rest (ground (arith, h)))
parse_tokens-digits total matched (d ∷ ds) (x ∷ xs) rest h =
    let digit : is_ascii_digit x ≡ true = ground (arith, h) in
    rw (parse_tokens, digit)
      (parse_tokens-digits total matched (x ∷ d ∷ ds) xs rest (ground (arith, h)))

reverse_aux-last :
    (xs : Text) (d : ℕ) (ds : Text) → reverse_aux (xs ++ (d ∷ [])) ds ≡ d ∷ reverse_aux xs ds
reverse_aux-last [] d ds = refl
reverse_aux-last (x ∷ xs) d ds = reverse_aux-last xs d (x ∷ ds)

value_of-decimal : (fuel n : ℕ) → n < 10 ^ fuel → value_of (reverse_aux (decimal fuel n) []) ≡ n
unfolding decimal
value_of-decimal zero n h = omega (arith, h)
value_of-decimal (suc fuel) n h = elim (Bool-cases (ltb n 10)) [
  | inl e ↦ rw e (ground (arith, e))
  | inr e ↦
      let front = value_of-decimal fuel (n / 10) (omega (arith, h, pow-suc 10 fuel)) in
      rw (e, reverse_aux-last (decimal fuel (n / 10)) (b'0' + n % 10) []) (omega (arith, front))
]

saturating-le : (n : ℕ) → n ≤ u64_max → saturating n ≡ n
saturating-le n h = ground (arith, h)

parse_u64-some : (ds : List ℕ) → value_of ds ≤ u64_max → parse_u64 ds ≡ some (value_of ds)
parse_u64-some ds h = ground (arith, h)

all_read : (total : ℕ) → parse_tokens total true [] [] ≡ some total
unfolding parse_tokens
all_read total = refl

parse_tokens-unit :
    (total secs c : ℕ) (matched : Bool) (ds : List ℕ) (rest : Text)
    → ds ≢ []
    → is_ascii_digit c ≡ false
    → unit_secs (to_ascii_lowercase c) ≡ some secs
    → total + value_of ds * secs ≤ u64_max
    → value_of ds ≤ u64_max
    → parse_tokens total matched ds (c ∷ rest)
      ≡ parse_tokens (total + value_of ds * secs) true [] rest
unfolding parse_tokens
parse_tokens-unit total secs c matched [] rest h p u l k = absurd (h refl)
parse_tokens-unit total secs c matched (d ∷ ds) rest h p u l k =
    rw
      (
        parse_tokens,
        p,
        u,
        parse_u64-some (d ∷ ds) k,
        saturating-le (value_of (d ∷ ds) * secs) (omega (arith, l)),
        saturating-le (total + value_of (d ∷ ds) * secs) l,
      )
      refl

parse_tokens-blank :
    (total : ℕ) (matched : Bool) (rest : Text)
    → parse_tokens total matched [] (b' ' ∷ rest) ≡ parse_tokens total matched [] rest
unfolding parse_tokens
parse_tokens-blank total matched rest = refl

reverse_aux-nil : (xs ds : Text) → xs ≢ [] → reverse_aux xs ds ≢ []
reverse_aux-nil [] ds h e = h refl
reverse_aux-nil (x ∷ []) ds h e = cc e
reverse_aux-nil (x ∷ y ∷ xs) ds h e = reverse_aux-nil (y ∷ xs) (x ∷ ds) (λ k. cc k) e

-- A number and its unit.
parse_tokens-decimal :
    (total secs c n : ℕ) (matched : Bool) (rest : Text)
    → is_ascii_digit c ≡ false
    → unit_secs (to_ascii_lowercase c) ≡ some secs
    → total + n * secs ≤ u64_max
    → n ≤ u64_max
    → parse_tokens total matched [] (decimal 20 n ++ (c ∷ rest))
      ≡ parse_tokens (total + n * secs) true [] rest
parse_tokens-decimal total secs c n matched rest p u l k =
    let digits = reverse_aux (decimal 20 n) [] in
    let value : value_of digits ≡ n = value_of-decimal 20 n (omega (arith, k)) in
    parse_tokens-digits total matched [] (decimal 20 n) (c ∷ rest) (all-decimal 20 n)
    ∙ parse_tokens-unit total secs c matched digits rest
        (reverse_aux-nil (decimal 20 n) [] (decimal-nil 19 n)) p u (rw value l) (rw value k)
    ∙ ap (λ v. parse_tokens (total + v * secs) true [] rest) value

-- The text of a duration with all four units.
abbrev pub duration_text : ℕ → ℕ → ℕ → ℕ → Text
duration_text d h m s =
    decimal 20 d
    ++ (b'd'
        ∷ b' '
        ∷ (decimal 20 h
            ++ (b'h' ∷ b' ' ∷ (decimal 20 m ++ (b'm' ∷ b' ' ∷ (decimal 20 s ++ (b's' ∷ [])))))))

-- A duration in days, hours, minutes and seconds is read back as its number of seconds, if that is a
-- `u64`.
pub parse_ban_duration_secs-duration_text :
    (d h m s : ℕ)
    → d * 86_400 + h * 3_600 + m * 60 + s ≤ u64_max
    → parse_ban_duration_secs (duration_text d h m s) ≡ some (d * 86_400 + h * 3_600 + m * 60 + s)
unfolding parse_ban_duration_secs
parse_ban_duration_secs-duration_text d h m s l =
    let hours =
      decimal 20 h
      ++ (b'h' ∷ b' ' ∷ (decimal 20 m ++ (b'm' ∷ b' ' ∷ (decimal 20 s ++ (b's' ∷ []))))) in
    let minutes = decimal 20 m ++ (b'm' ∷ b' ' ∷ (decimal 20 s ++ (b's' ∷ []))) in
    let seconds = decimal 20 s ++ (b's' ∷ []) in
    parse_tokens-decimal 0 86_400 b'd' d false (b' ' ∷ hours) refl refl (omega (arith, l))
      (omega (arith, l))
    ∙ parse_tokens-blank (0 + d * 86_400) true hours
    ∙ parse_tokens-decimal (0 + d * 86_400) 3_600 b'h' h true (b' ' ∷ minutes) refl refl
        (omega (arith, l)) (omega (arith, l))
    ∙ parse_tokens-blank (0 + d * 86_400 + h * 3_600) true minutes
    ∙ parse_tokens-decimal (0 + d * 86_400 + h * 3_600) 60 b'm' m true (b' ' ∷ seconds) refl refl
        (omega (arith, l)) (omega (arith, l))
    ∙ parse_tokens-blank (0 + d * 86_400 + h * 3_600 + m * 60) true seconds
    ∙ parse_tokens-decimal (0 + d * 86_400 + h * 3_600 + m * 60) 1 b's' s true [] refl refl
        (omega (arith, l)) (omega (arith, l))
    ∙ all_read (0 + d * 86_400 + h * 3_600 + m * 60 + s * 1)
    ∙ ap some (omega arith)
