-- ===== src/Panel/Compare.antt =====
-- src/web/server.rs: the comparison of signatures and passwords.
use escrow.Common.{
  ℕ, zero, suc, ◌/◌, ◌^◌, ◌<◌, ◌≡◌, refl, ap, ◌∙◌, inl, inr, false, ◌&&◌, [], ◌∷◌, arith, ◌==◌,
  Bool-cases, ==_refl, length, text_keys, side_keys, nat_eq, Text, text_eq, text_eq_refl,
  text_eq_eq,
}
use native.Mathlib.Nat.{pow-suc}
use escrow.Panel.{xor, bit_or, fold_bytes, same_bytes}

abbrev pub AllBytes : Text → Type 0
AllBytes [] = Unit
AllBytes (x ∷ xs) = (x < 256) × AllBytes xs

xor_self : (w a : ℕ) → xor w a a ≡ 0
xor_self zero a = refl
xor_self (suc w) a = omega (arith, xor_self w (a / 2))

xor-zero : (w a b : ℕ) → xor w a b ≡ 0 → a < 2 ^ w → b < 2 ^ w → a ≡ b
xor-zero zero a b e h k = omega (arith, h, k)
xor-zero (suc w) a b e h k =
    let halves =
      xor-zero w (a / 2) (b / 2) (omega (arith, e)) (omega (arith, h, pow-suc 2 w))
        (omega (arith, k, pow-suc 2 w)) in
    omega (arith, e, halves)

bit_or-zero : (w a b : ℕ) → a < 2 ^ w → b < 2 ^ w → bit_or w a b ≡ 0 → (a ≡ 0) × (b ≡ 0)
bit_or-zero zero a b h k e = (omega (arith, h), omega (arith, k))
bit_or-zero (suc w) a b h k e =
    let halves =
      bit_or-zero w (a / 2) (b / 2) (omega (arith, h, pow-suc 2 w)) (omega (arith, k, pow-suc 2 w))
        (ground arith) in
    ground arith

xor-lt : (w a b : ℕ) → xor w a b < 2 ^ w
xor-lt zero a b = omega arith
xor-lt (suc w) a b = omega (arith, xor-lt w (a / 2) (b / 2), pow-suc 2 w)

bit_or-lt : (w a b : ℕ) → bit_or w a b < 2 ^ w
bit_or-lt zero a b = omega arith
bit_or-lt (suc w) a b = ground (arith, bit_or-lt w (a / 2) (b / 2), pow-suc 2 w)

-- One step of the fold.
step-zero :
    (acc x y : ℕ)
    → acc < 256
    → x < 256
    → y < 256
    → bit_or 8 acc (xor 8 x y) ≡ 0
    → (acc ≡ 0) × (x ≡ y)
step-zero acc x y h p q e =
    let zeros = bit_or-zero 8 acc (xor 8 x y) h (xor-lt 8 x y) e in
    (zeros.0, xor-zero 8 x y zeros.1 p q)

fold_bytes-zero :
    (acc : ℕ) (xs ys : Text)
    → AllBytes xs
    → AllBytes ys
    → acc < 256
    → length xs ≡ length ys
    → fold_bytes acc xs ys ≡ 0
    → (acc ≡ 0) × (xs ≡ ys)
fold_bytes-zero acc [] [] p q h l e = (e, refl)
fold_bytes-zero acc [] (y ∷ ys) p q h l e = absurd (omega (arith, l))
fold_bytes-zero acc (x ∷ xs) [] p q h l e = absurd (omega (arith, l))
fold_bytes-zero acc (x ∷ xs) (y ∷ ys) (p, ps) (q, qs) h l e =
    let rest =
      fold_bytes-zero (bit_or 8 acc (xor 8 x y)) xs ys ps qs (bit_or-lt 8 acc (xor 8 x y))
        (omega (arith, l)) e in
    let first = step-zero acc x y h p q rest.0 in
    (first.0, ap (λ c. c ∷ xs) first.1 ∙ ap (λ t. y ∷ t) rest.1)

fold_bytes_self : (xs : Text) → fold_bytes 0 xs xs ≡ 0
fold_bytes_self [] = refl
fold_bytes_self (x ∷ xs) = rw (xor_self 8 x) (fold_bytes_self xs)

differ :
    (xs ys : Text)
    → AllBytes xs
    → AllBytes ys
    → text_eq xs ys ≡ false
    → ((length xs == length ys) && (fold_bytes 0 xs ys == 0)) ≡ false
differ xs ys p q e = elim (Bool-cases ((length xs == length ys) && (fold_bytes 0 xs ys == 0))) [
  | inl h ↦
      let equal = fold_bytes-zero 0 xs ys p q (omega arith) (ground arith) (ground arith) in
      absurd (ground (arith, text_eq_refl ys, rw equal.1 at e))
  | inr h ↦ h
]

-- The comparison in constant time of two lists of bytes is their equality.
pub same_bytes-text_eq :
    (xs ys : Text) → AllBytes xs → AllBytes ys → same_bytes xs ys ≡ text_eq xs ys
unfolding same_bytes
same_bytes-text_eq xs ys p q = elim (Bool-cases (text_eq xs ys)) [
  | inl e ↦ rw (text_eq_eq xs ys e, ==_refl (length ys), fold_bytes_self ys, text_eq_refl ys) refl
  | inr e ↦ rw e (differ xs ys p q e)
]
