-- ===== src/Panel/Decimals.antt =====
-- src/web/server.rs: the decimal digits of an `i64` and what is read from them.
use escrow.Common.{
  ℕ, zero, suc, ◌+◌, ◌-◌, ◌*◌, ◌/◌, ◌%◌, ◌^◌, ◌<◌, ◌≡◌, refl, ap, ◌∙◌, ◌≢◌, inl, inr, Bool, true,
  false, not, ◌&&◌, Option, some, [], ◌∷◌, ◌++◌, arith, ltb, ◌==◌, Bool-cases, ==_refl, text_keys,
  side_keys, nat_eq, Text, ℤ, pos, negsuc, IsI64,
}
use native.Mathlib.Nat.{pow-suc}
use escrow.Strings.{decimal, is_ascii_digit}
use escrow.Panel.{
  display_i64, parse_digits, parse_i64, positive, negative, digits_after, split_once,
}

parse_digits-append :
    (v u : ℕ) (xs ys : Text)
    → parse_digits v xs ≡ some u
    → parse_digits v (xs ++ ys) ≡ parse_digits u ys
unfolding parse_digits
parse_digits-append v u [] ys h = ground (arith, h)
parse_digits-append v u (x ∷ xs) ys h = elim (Bool-cases (is_ascii_digit x)) [
  | inl e ↦ rw e (parse_digits-append (v * 10 + (x - b'0')) u xs ys (rw e at h))
  | inr e ↦ absurd (ground (arith, rw e at h))
]

parse_digits-digit : (v d : ℕ) → d < 10 → parse_digits v ((b'0' + d) ∷ []) ≡ some (v * 10 + d)
unfolding parse_digits
parse_digits-digit v d h = ground arith

nothing_read : (v : ℕ) → parse_digits v [] ≡ some v
unfolding parse_digits
nothing_read v = refl

append-cons : (t : Text) (c : ℕ) → t ++ (c ∷ []) ≢ []
append-cons [] c h = cc h
append-cons (d ∷ t) c h = cc h

add_one : (n : ℕ) → n + 1 ≡ suc n
add_one n = omega arith

not_sign : (c s : ℕ) → s < 48 → is_ascii_digit c ≡ true → (c == s) ≡ false
not_sign c s h d = ground (arith, h, d)

pub parse_digits-decimal : (fuel n : ℕ) → n < 10 ^ fuel → parse_digits 0 (decimal fuel n) ≡ some n
unfolding decimal
parse_digits-decimal zero n h = let empty : n ≡ 0 = omega (arith, h) in rw empty (nothing_read 0)
parse_digits-decimal (suc fuel) n h = elim (Bool-cases (ltb n 10)) [
  | inl e ↦ rw e (parse_digits-digit 0 n (ground (arith, e)) ∙ ap some (omega arith))
  | inr e ↦
      let first = parse_digits-decimal fuel (n / 10) (omega (arith, h, pow-suc 10 fuel)) in
      rw e (
        parse_digits-append 0 (n / 10) (decimal fuel (n / 10)) ((b'0' + n % 10) ∷ []) first
        ∙ parse_digits-digit (n / 10) (n % 10) (omega arith)
        ∙ ap some (omega arith))
]

pub decimal-nil : (fuel n : ℕ) → decimal (suc fuel) n ≢ []
unfolding decimal
decimal-nil fuel n = elim (Bool-cases (ltb n 10)) [
  | inl e ↦ rw e (λ h. cc h)
  | inr e ↦ rw e (append-cons (decimal fuel (n / 10)) (b'0' + n % 10))
]

parse_i64-positive :
    (t : Text) (n : ℕ) → t ≢ [] → parse_digits 0 t ≡ some n → parse_i64 t ≡ positive (some n)
unfolding parse_i64 parse_digits
parse_i64-positive [] n h e = absurd (h refl)
parse_i64-positive (c ∷ cs) n h e = elim (Bool-cases (is_ascii_digit c)) [
  | inl d ↦
      rw (not_sign c b'-' (omega arith) d, not_sign c b'+' (omega arith) d, d)
        (ap positive (rw d at e))
  | inr d ↦ absurd (ground (arith, rw d at e))
]

digits_after-some :
    (sign : Option ℕ → Option ℤ) (t : Text) (n : ℕ)
    → t ≢ []
    → parse_digits 0 t ≡ some n
    → digits_after sign t ≡ sign (some n)
digits_after-some sign [] n h e = absurd (h refl)
digits_after-some sign (c ∷ cs) n h e = ap sign e

-- An `i64` is read back from its digits.
pub parse_i64-display_i64 : (z : ℤ) → IsI64 z → parse_i64 (display_i64 z) ≡ some z
unfolding parse_i64
parse_i64-display_i64 (pos n) h =
    parse_i64-positive (decimal 20 n) n (decimal-nil 19 n)
      (parse_digits-decimal 20 n (omega (arith, h)))
    ∙ ground arith
parse_i64-display_i64 (negsuc n) h =
    digits_after-some negative (decimal 20 (n + 1)) (n + 1) (decimal-nil 19 (n + 1))
      (parse_digits-decimal 20 (n + 1) (omega (arith, h)))
    ∙ ap negative (ap some (add_one n))
    ∙ ground arith

-- The tests that all characters pass.
abbrev pub all : (ℕ → Bool) → Text → Bool
all p [] = true
all p (c ∷ cs) = p c && all p cs

pub all-append :
    (p : ℕ → Bool) (xs ys : Text) → all p xs ≡ true → all p ys ≡ true → all p (xs ++ ys) ≡ true
all-append p [] ys h k = k
all-append p (x ∷ xs) ys h k = ground (arith, all-append p xs ys, h, k)

pub all-weaken :
    (p q : ℕ → Bool) (xs : Text)
    → ((c : ℕ) → p c ≡ true → q c ≡ true)
    → all p xs ≡ true
    → all q xs ≡ true
all-weaken p q [] f h = refl
all-weaken p q (x ∷ xs) f h = ground (arith, all-weaken p q xs f, f x, h)

pub all-decimal : (fuel n : ℕ) → all is_ascii_digit (decimal fuel n) ≡ true
unfolding decimal
all-decimal zero n = refl
all-decimal (suc fuel) n = elim (Bool-cases (ltb n 10)) [
  | inl e ↦ rw e (ground (arith, e))
  | inr e ↦ rw e (
      all-append is_ascii_digit (decimal fuel (n / 10)) ((b'0' + n % 10) ∷ [])
        (all-decimal fuel (n / 10)) (ground arith))
]

pub split_once-append :
    (sep : ℕ) (xs ys : Text)
    → all (λ c. not (c == sep)) xs ≡ true
    → split_once sep (xs ++ (sep ∷ ys)) ≡ some (xs, ys)
unfolding split_once
split_once-append sep [] ys h = rw (==_refl sep) refl
split_once-append sep (x ∷ xs) ys h = elim (Bool-cases (x == sep)) [
  | inl e ↦ absurd (ground (arith, h, e))
  | inr e ↦ rw (e, split_once-append sep xs ys (ground (arith, h))) refl
]

pub all-display_i64 :
    (p : ℕ → Bool) (z : ℤ)
    → ((c : ℕ) → is_ascii_digit c ≡ true → p c ≡ true)
    → p b'-' ≡ true
    → all p (display_i64 z) ≡ true
all-display_i64 p (pos n) f h = all-weaken is_ascii_digit p (decimal 20 n) f (all-decimal 20 n)
all-display_i64 p (negsuc n) f h =
    rw (h, all-weaken is_ascii_digit p (decimal 20 (n + 1)) f (all-decimal 20 (n + 1))) refl
