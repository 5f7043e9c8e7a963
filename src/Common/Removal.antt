-- ===== src/Common/Removal.antt =====
-- Lemmas on `retain`, `any`, `find`, `count` and `remove_last`, and `keep_first`, which bounds how
-- many elements of one kind a list has.
use Prim.Native.Nat.{ℕ, zero, suc, ◌+◌, ◌≤◌, ◌<◌}
use mathlib.Core.Path.{◌≡◌, refl, ap}
use mathlib.Core.Bool.{Bool, true, false, not, ◌||◌}
use mathlib.Core.List.{List, [], ◌∷◌, ◌++◌}
use mathlib.Core.Option.{none, some}
use mathlib.Core.Logic.{◌⊎◌, inl, inr}
use native.Mathlib.Omega.{arith}
use escrow.Common.Tests.{if◌then◌else◌, Bool-cases, Option-cases}
use escrow.Common.Lists.{length, retain, any, find, count, remove_last}

module _ {ℓ} {A : Type ℓ} (p : A → Bool) where
  pub count-append : (xs ys : List A) → count p (xs ++ ys) ≡ count p xs + count p ys
  count-append [] ys = omega arith
  count-append (x ∷ xs) ys = ground (arith, count-append xs ys)

  pub any-append : (xs ys : List A) → any p (xs ++ ys) ≡ (any p xs || any p ys)
  any-append [] ys = refl
  any-append (x ∷ xs) ys = ground (arith, any-append xs ys)

  pub retain-append : (xs ys : List A) → retain p (xs ++ ys) ≡ retain p xs ++ retain p ys
  retain-append [] ys = refl
  retain-append (x ∷ xs) ys = ground (arith, retain-append xs ys)

  pub any-count : (xs : List A) → (any p xs ≡ false) ⊎ (0 < count p xs)
  any-count [] = inl refl
  any-count (x ∷ xs) = ground (arith, any-count xs)

  pub count-any : (xs : List A) → any p xs ≡ false → count p xs ≡ 0
  count-any [] h = refl
  count-any (x ∷ xs) h = ground (arith, count-any xs)

  pub any_of_count : (xs : List A) → count p xs ≡ 0 → any p xs ≡ false
  any_of_count [] h = refl
  any_of_count (x ∷ xs) h = ground (arith, any_of_count xs)

  pub find-any : (xs : List A) → find p xs ≡ none → any p xs ≡ false
  find-any [] h = refl
  find-any (x ∷ xs) h = ground (arith, find-any xs)

  pub length-retain-le : (xs : List A) → length (retain p xs) ≤ length xs
  length-retain-le [] = omega arith
  length-retain-le (x ∷ xs) = ground (arith, length-retain-le xs)

  pub length-retain : (xs : List A) → length (retain p xs) ≡ count p xs
  length-retain [] = refl
  length-retain (x ∷ xs) = ground (arith, length-retain xs)

  pub count_split : (xs : List A) → count p xs + count (λ x. not (p x)) xs ≡ length xs
  count_split [] = refl
  count_split (x ∷ xs) = ground (arith, count_split xs)

  pub remove_last-none : (xs : List A) → remove_last p xs ≡ none → count p xs ≡ 0
  remove_last-none [] h = refl
  remove_last-none (x ∷ xs) h = ground (arith, remove_last-none xs)

  -- What the removed element is, and that it was one of the list's.
  pub remove_last-some :
      (xs : List A) (y : A) (ys : List A)
      → remove_last p xs ≡ some (y, ys)
      → (p y ≡ true) × (count p xs ≡ suc (count p ys)) × (length xs ≡ suc (length ys))
  remove_last-some [] y ys h = cc
  remove_last-some (x ∷ xs) y ys h = elim (Option-cases (remove_last p xs)) [
    | inl e ↦ ground (arith, remove_last-none xs e)
    | inr (z, e) ↦ ground (arith, remove_last-some xs z.0 z.1 e)
  ]

  -- The elements that pass the test, but for the first `m`, are left out.
  unfoldable pub keep_first : ℕ → List A → List A
  keep_first m [] = []
  keep_first zero (x ∷ xs) = let rest = keep_first zero xs in if p x then rest else x ∷ rest
  keep_first (suc m) (x ∷ xs) = x ∷ keep_first (if p x then m else suc m) xs

  pub keep_first_all : (m : ℕ) (xs : List A) → count p xs ≤ m → keep_first m xs ≡ xs
  unfolding keep_first
  keep_first_all m [] h = refl
  keep_first_all zero (x ∷ xs) h = ground (arith, keep_first_all zero xs)
  keep_first_all (suc m) (x ∷ xs) h = elim (Bool-cases (p x)) [
    | inl e ↦ rw e (ap (◌∷◌ x) (keep_first_all m xs (ground arith)))
    | inr e ↦ rw e (ap (◌∷◌ x) (keep_first_all (suc m) xs (ground arith)))
  ]

  -- Below the bound, leaving out the last one changes nothing.
  pub keep_first-remove_last :
      (xs : List A) (y : A) (ys : List A) (m : ℕ)
      → remove_last p xs ≡ some (y, ys)
      → m < count p xs
      → keep_first m xs ≡ keep_first m ys
  unfolding keep_first
  keep_first-remove_last [] y ys m h k = cc
  keep_first-remove_last (x ∷ xs) y ys zero h k = elim (Option-cases (remove_last p xs)) [
    | inl e ↦ ground (arith, remove_last-none xs e)
    | inr (z, e) ↦
        ground (arith, remove_last-some xs z.0 z.1 e, keep_first-remove_last xs z.0 z.1 zero e)
  ]
  keep_first-remove_last (x ∷ xs) y ys (suc m) h k = elim (Option-cases (remove_last p xs)) [
    | inl e ↦ ground (arith, remove_last-none xs e)
    | inr (z, e) ↦ ground (
      arith,
      remove_last-some xs z.0 z.1 e,
      keep_first-remove_last xs z.0 z.1 m e,
      keep_first-remove_last xs z.0 z.1 (suc m) e,
    )
  ]
