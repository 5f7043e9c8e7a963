-- ===== src/Ownership/Updates.antt =====
-- src/auction_ownership.rs: lists in which one element is changed, or of which a part is kept.
use escrow.Common.{
  ℕ, zero, suc, ◌≤◌, ◌≡◌, refl, inl, inr, Bool, true, false, ◌&&◌, none, some, List, [], ◌∷◌, ◌++◌,
  arith, Option-cases, length, drop, retain, any, text_keys, side_keys, nat_eq,
}
use escrow.Ownership.{update_first}

module _ {ℓ} {A : Type ℓ} (p : A → Bool) (f : A → A) where
  pub length-update_first : (xs ys : List A) → update_first p f xs ≡ some ys → length ys ≡ length xs
  length-update_first [] ys h = cc
  length-update_first (x ∷ xs) ys h = elim (Option-cases (update_first p f xs)) [
    | inl e ↦ ground arith
    | inr (zs, e) ↦ ground (arith, length-update_first xs zs e)
  ]

  -- A test that every changed element passes is passed by one of the changed list's.
  pub any-update_first :
      (r : A → Bool) (xs ys : List A)
      → update_first p f xs ≡ some ys
      → ((x : A) → p x ≡ true → r (f x) ≡ true)
      → any r ys ≡ true
  any-update_first r [] ys h g = cc
  any-update_first r (x ∷ xs) ys h g = elim (Option-cases (update_first p f xs)) [
    | inl e ↦ ground (arith, g x)
    | inr (zs, e) ↦ ground (arith, g x, any-update_first r xs zs e g)
  ]

  pub update_first-none : (xs : List A) → any p xs ≡ false → update_first p f xs ≡ none
  update_first-none [] h = refl
  update_first-none (x ∷ xs) h = ground (arith, update_first-none xs)

module _ {ℓ} {A : Type ℓ} (r : A → Bool) where
  pub any_last :
      (n : ℕ) (xs : List A) (x : A)
      → n ≤ length xs
      → r x ≡ true
      → any r (drop n (xs ++ x ∷ [])) ≡ true
  any_last zero [] x h g = ground arith
  any_last zero (y ∷ ys) x h g = ground (arith, any_last zero ys x)
  any_last (suc n) [] x h g = absurd (omega arith)
  any_last (suc n) (y ∷ ys) x h g = any_last n ys x (omega arith) g

  pub any-retain_both :
      (p : A → Bool) (xs : List A) → any (λ x. p x && r x) xs ≡ true → any r (retain p xs) ≡ true
  any-retain_both p [] h = cc
  any-retain_both p (x ∷ xs) h = ground (arith, any-retain_both p xs)

  pub any_mono :
      (q : A → Bool) (xs : List A)
      → ((x : A) → r x ≡ true → q x ≡ true)
      → any r xs ≡ true
      → any q xs ≡ true
  any_mono q [] h g = cc
  any_mono q (x ∷ xs) h g = ground (arith, h x, any_mono q xs h)
