-- ===== src/Common/Int.antt =====
-- Signed integers. `negsuc n` is -(n + 1). Machine arithmetic on `i64` wraps, as in the release
-- profile, which has no overflow checks.
use Prim.Native.Nat.{ℕ, ◌+◌, ◌-◌, ◌%◌, ◌<◌}
use mathlib.Core.Path.{◌≡◌, ap}
use mathlib.Core.Bool.{Bool, true, false}
use mathlib.Core.Logic.{◌↔◌}
use native.Mathlib.Omega.{arith}
use escrow.Common.Tests.{ltb, ◌==◌, if◌then◌else◌}

pub data ℤ : Type 0 where
  pos : ℕ → ℤ
  negsuc : ℕ → ℤ

-- The word that an `i64` is stored in, and the `i64` that a word stands for.
abbrev pub u64_mod : ℕ
u64_mod = 18446744073709551616

abbrev pub to_word : ℤ → ℕ
to_word (pos n) = n % u64_mod
to_word (negsuc n) = u64_mod - 1 - n % u64_mod

abbrev pub of_word : ℕ → ℤ
of_word w = if ltb w 9223372036854775808 then pos w else negsuc (u64_mod - 1 - w)

unfoldable pub wrapping_add : ℤ → ℤ → ℤ
wrapping_add a b = of_word ((to_word a + to_word b) % u64_mod)

unfoldable pub wrapping_sub : ℤ → ℤ → ℤ
wrapping_sub a b = of_word ((to_word a + (u64_mod - to_word b)) % u64_mod)

-- The range of an `i64`.
abbrev pub IsI64 : ℤ → Type 0
IsI64 (pos n) = n < 9223372036854775808
IsI64 (negsuc n) = n < 9223372036854775808

abbrev pub int_eq : ℤ → ℤ → Bool
int_eq (pos m) (pos n) = m == n
int_eq (pos m) (negsuc n) = false
int_eq (negsuc m) (pos n) = false
int_eq (negsuc m) (negsuc n) = m == n

abbrev pub is_positive : ℤ → Bool
is_positive (pos n) = ltb 0 n
is_positive (negsuc n) = false

pub int_eq_iff : (a b : ℤ) → (int_eq a b ≡ true) ↔ (a ≡ b)
int_eq_iff (pos m) (pos n) = ground arith
int_eq_iff (pos m) (negsuc n) = ground arith
int_eq_iff (negsuc m) (pos n) = ground arith
int_eq_iff (negsuc m) (negsuc n) = ground arith

-- Wrapping subtraction undoes wrapping addition.
pub wrapping_sub-wrapping_add :
    (a b : ℤ) → IsI64 a → IsI64 b → wrapping_sub (wrapping_add a b) b ≡ a
unfolding wrapping_add wrapping_sub
wrapping_sub-wrapping_add (pos m) (pos n) h k = ground arith
wrapping_sub-wrapping_add (pos m) (negsuc n) h k = ground arith
wrapping_sub-wrapping_add (negsuc m) (pos n) h k = ground arith
wrapping_sub-wrapping_add (negsuc m) (negsuc n) h k = ground arith

pub wrapping_sub_self : (a : ℤ) → wrapping_sub a a ≡ pos 0
unfolding wrapping_sub
wrapping_sub_self (pos m) = ground arith
wrapping_sub_self (negsuc m) = ground arith

to_word-of_word : (w : ℕ) → w < u64_mod → to_word (of_word w) ≡ w
to_word-of_word w h = ground arith

to_word_lt : (a : ℤ) → to_word a < u64_mod
to_word_lt (pos n) = omega arith
to_word_lt (negsuc n) = omega arith

-- Wrapping addition and subtraction may change places.
pub wrapping_sub_shift :
    (a b c : ℤ) → wrapping_sub (wrapping_add a b) c ≡ wrapping_add (wrapping_sub a c) b
unfolding wrapping_add wrapping_sub
wrapping_sub_shift a b c =
    let x = (to_word a + to_word b) % u64_mod in
    let y = (to_word a + (u64_mod - to_word c)) % u64_mod in
    rw (to_word-of_word x (omega arith), to_word-of_word y (omega arith))
      (ap of_word (omega (arith, to_word_lt a, to_word_lt b, to_word_lt c)))
