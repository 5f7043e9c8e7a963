-- ===== src/Common/Equality.antt =====
-- The Boolean equality of keys, as an interface, and its instances.
use Prim.Native.Nat.{ℕ}
use mathlib.Core.Path.{◌≡◌}
use mathlib.Core.Bool.{Bool, true, ◌&&◌}
use native.Mathlib.Omega.{arith}
use escrow.Common.Tests.{◌==◌, ==_refl, ==_eq, bool_eq}
use escrow.Common.Chars.{Text, text_eq, text_eq_refl, text_eq_eq}

pub record Eq {ℓ} (A : Type ℓ) : Type ℓ where
  pub beq : A → A → Bool
  pub beq_refl : (a : A) → beq a a ≡ true
  pub beq_eq : (a b : A) → beq a b ≡ true → a ≡ b

instance abbrev pub nat_eq : Eq ℕ
nat_eq = record { beq = ◌==◌; beq_refl = ==_refl; beq_eq = ==_eq }

instance abbrev pub text_keys : Eq Text
text_keys = record { beq = text_eq; beq_refl = text_eq_refl; beq_eq = text_eq_eq }

abbrev pub side_eq : Text × Bool → Text × Bool → Bool
side_eq (a, x) (b, y) = text_eq a b && bool_eq x y

pub side_eq_refl : (a : Text × Bool) → side_eq a a ≡ true
side_eq_refl (a, x) = ground (arith, text_eq_refl a)

pub side_eq_eq : (a b : Text × Bool) → side_eq a b ≡ true → a ≡ b
side_eq_eq (a, x) (b, y) h = ground (arith, text_eq_eq a b)

instance abbrev pub side_keys : Eq (Text × Bool)
side_keys = record { beq = side_eq; beq_refl = side_eq_refl; beq_eq = side_eq_eq }
