-- ===== src/Common/Kept.antt =====
-- What `keep_first` keeps.
use Prim.Native.Nat.{ℕ, zero, suc, ◌≤◌}
use mathlib.Core.Path.{◌≡◌, refl, ap}
use mathlib.Core.Bool.{Bool, true, not, ◌&&◌}
use mathlib.Core.List.{List, [], ◌∷◌}
use mathlib.Core.Option.{some}
use mathlib.Core.Logic.{inl, inr}
use native.Mathlib.Omega.{arith}
use escrow.Common.Tests.{Bool-cases}
use escrow.Common.Lists.{retain, any, find, count}
use escrow.Common.Removal.{keep_first}

module _ {ℓ} {A : Type ℓ} (p : A → Bool) where
  -- Everything that the bound does not speak of stays, in its order.
  pub retain-keep_first :
      (m : ℕ) (xs : List A)
      → retain (λ x. not (p x)) (keep_first p m xs) ≡ retain (λ x. not (p x)) xs
  unfolding keep_first
  retain-keep_first m [] = refl
  retain-keep_first zero (x ∷ xs) = ground (arith, retain-keep_first zero xs)
  retain-keep_first (suc m) (x ∷ xs) = elim (Bool-cases (p x)) [
    | inl e ↦ rw e (retain-keep_first m xs)
    | inr e ↦ rw e (ap (◌∷◌ x) (retain-keep_first (suc m) xs))
  ]

  pub count-keep_first :
      (r : A → Bool) (m : ℕ) (xs : List A) → count r (keep_first p m xs) ≤ count r xs
  unfolding keep_first
  count-keep_first r m [] = omega arith
  count-keep_first r zero (x ∷ xs) = ground (arith, count-keep_first r zero xs)
  count-keep_first r (suc m) (x ∷ xs) = elim (Bool-cases (p x)) [
    | inl e ↦ rw e (ground (arith, count-keep_first r m xs))
    | inr e ↦ rw e (ground (arith, count-keep_first r (suc m) xs))
  ]

module _ {ℓ} {A : Type ℓ} (p r : A → Bool) where
  pub any-retain : (xs : List A) → any r (retain p xs) ≡ true → any r xs ≡ true
  any-retain [] h = cc
  any-retain (x ∷ xs) h = ground (arith, any-retain xs)

  pub any-retain_of : (xs : List A) → any (λ x. p x && r x) xs ≡ true → any r (retain p xs) ≡ true
  any-retain_of [] h = cc
  any-retain_of (x ∷ xs) h = ground (arith, any-retain_of xs)

  pub count-retain-le : (xs : List A) → count r (retain p xs) ≤ count r xs
  count-retain-le [] = omega arith
  count-retain-le (x ∷ xs) = ground (arith, count-retain-le xs)

module _ {ℓ} {A : Type ℓ} (p r : A → Bool) where
  pub any-keep_first :
      (m : ℕ) (xs : List A)
      → any r (retain (λ x. not (p x)) xs) ≡ true
      → any r (keep_first p m xs) ≡ true
  any-keep_first m xs h =
      any-retain (λ x. not (p x)) r (keep_first p m xs) (rw (retain-keep_first p m xs) h)

module _ {ℓ} {A : Type ℓ} (p : A → Bool) where
  pub find-some : (xs : List A) (x : A) → find p xs ≡ some x → p x ≡ true
  find-some [] x h = cc
  find-some (y ∷ ys) x h = ground (arith, find-some ys x)

  -- What is found is there, for any other test too that it passes.
  pub find-any_of :
      (r : A → Bool) (xs : List A) (x : A) → find p xs ≡ some x → r x ≡ true → any r xs ≡ true
  find-any_of r [] x h k = cc
  find-any_of r (y ∷ ys) x h k = ground (arith, find-any_of r ys x)
