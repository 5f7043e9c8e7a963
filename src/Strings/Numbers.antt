-- ===== src/Strings/Numbers.antt =====
-- src/utils/string.rs: a formatted number reads back.
use escrow.Common.{
  ℕ, zero, suc, ◌+◌, ◌-◌, ◌*◌, ◌/◌, ◌%◌, ◌^◌, ◌<◌, ◌≡◌, refl, ◌∙◌, inl, inr, [], ◌∷◌, ◌++◌, arith,
  ltb, ◌==◌, if◌then◌else◌, Bool-cases, length, text_keys, side_keys, nat_eq, Text, u64_mod,
}
use native.Mathlib.Nat.{pow-suc}
use escrow.Strings.{separate, decimal, format_number_with_separators}

-- A number is read from its digits, and the separators are passed over.
abbrev read_digit : ℕ → ℕ → ℕ
read_digit v d = if d == b',' then v else v * 10 + (d - b'0')

abbrev pub read_from : ℕ → Text → ℕ
read_from v [] = v
read_from v (d ∷ ds) = read_from (read_digit v d) ds

read_from-append : (v : ℕ) (xs ys : Text) → read_from v (xs ++ ys) ≡ read_from (read_from v xs) ys
read_from-append v [] ys = refl
read_from-append v (x ∷ xs) ys = read_from-append (read_digit v x) xs ys

-- The separators change nothing of what is read.
read_from-separate : (v : ℕ) (ds : Text) → read_from v (separate ds) ≡ read_from v ds
unfolding separate
read_from-separate v [] = refl
read_from-separate v (d ∷ []) = refl
read_from-separate v (d ∷ e ∷ ds) = ground (arith, read_from-separate (read_digit v d) (e ∷ ds))

read_from-decimal : (fuel n : ℕ) → n < 10 ^ fuel → read_from 0 (decimal fuel n) ≡ n
unfolding decimal
read_from-decimal zero n h = omega arith
read_from-decimal (suc fuel) n h = elim (Bool-cases (ltb n 10)) [
  | inl e ↦ rw e (ground arith)
  | inr e ↦
      rw
        (
          e,
          read_from-append 0 (decimal fuel (n / 10)) ((b'0' + n % 10) ∷ []),
          read_from-decimal fuel (n / 10) (omega (arith, pow-suc 10 fuel)),
        )
        (ground arith)
]

-- One separator for every three digits that stand behind another.
length-separate : (ds : Text) → length (separate ds) ≡ length ds + (length ds - 1) / 3
unfolding separate
length-separate [] = refl
length-separate (d ∷ []) = refl
length-separate (d ∷ e ∷ ds) = ground (arith, length-separate (e ∷ ds))

-- A `u64` is read back from its formatted text, which has one separator for every three digits that
-- stand behind another digit.
pub read_from-format_number_with_separators :
    (n : ℕ)
    → n < u64_mod
    → (read_from 0 (format_number_with_separators n) ≡ n)
      × (length (format_number_with_separators n)
          ≡ length (decimal 20 n) + (length (decimal 20 n) - 1) / 3)
unfolding format_number_with_separators
read_from-format_number_with_separators n h = (
  read_from-separate 0 (decimal 20 n) ∙ read_from-decimal 20 n (omega arith),
  length-separate (decimal 20 n),
)
