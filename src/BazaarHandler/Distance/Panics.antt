-- ===== src/BazaarHandler/Distance/Panics.antt =====
-- src/handlers/bazaar_flip_handler.rs: the edit distance panics on texts that are not ASCII.
use escrow.Common.{
  ℕ, zero, suc, ◌+◌, ◌≤◌, ◌<◌, ◌≡◌, refl, ◌≢◌, ◌⊎◌, inl, inr, false, none, List, [], ◌∷◌, arith,
  ◌==◌, Option-cases, length, text_keys, side_keys, nat_eq, Text,
}
use escrow.Strings.{byte_len}
use escrow.BazaarHandler.Distance.{min, cost, fill_row, fill_rows, count_up, levenshtein_distance}

length-le-byte_len : (a : Text) → length a ≤ byte_len a
length-le-byte_len [] = omega arith
length-le-byte_len (c ∷ a) = let rest = length-le-byte_len a in ground arith

fill_row-short :
    (n b left : ℕ) (a : Text) (above : List ℕ) → length a < n → fill_row n a b left above ≡ none
fill_row-short zero b left a above h = absurd (omega (arith, h))
fill_row-short (suc n) b left [] above h = refl
fill_row-short (suc n) b left (x ∷ a) [] h = refl
fill_row-short (suc n) b left (x ∷ a) (d ∷ []) h = refl
fill_row-short (suc n) b left (x ∷ a) (d ∷ u ∷ above) h =
    rw
      (fill_row-short n b (min (min (u + 1) (left + 1)) (d + cost b x)) a (u ∷ above)
        (omega (arith, h)))
      refl

fill_rows-short_row :
    (m i n : ℕ) (bs a : Text) (above : List ℕ)
    → length a < n
    → fill_rows (suc m) bs i n a above ≡ none
fill_rows-short_row m i n [] a above h = refl
fill_rows-short_row m i n (b ∷ bs) a above h = rw (fill_rows, fill_row-short n b i a above h) refl

fill_rows-short :
    (m i n : ℕ) (bs a : Text) (above : List ℕ) → length bs < m → fill_rows m bs i n a above ≡ none
fill_rows-short zero i n bs a above h = absurd (omega (arith, h))
fill_rows-short (suc m) i n [] a above h = refl
fill_rows-short (suc m) i n (b ∷ bs) a above h = elim (Option-cases (fill_row n a b i above)) [
  | inl e ↦ rw (fill_rows, e) refl
  | inr (row, e) ↦ rw (fill_rows, e) (fill_rows-short m (i + 1) n bs a (i ∷ row) (omega (arith, h)))
]

fill_rows-none :
    (m i n : ℕ) (bs a : Text) (above : List ℕ)
    → (m == 0) ≡ false
    → (length a < n) ⊎ (length bs < m)
    → fill_rows m bs i n a above ≡ none
fill_rows-none zero i n bs a above e h = absurd (ground (arith, e))
fill_rows-none (suc m) i n bs a above e (inl h) = fill_rows-short_row m i n bs a above h
fill_rows-none (suc m) i n bs a above e (inr h) = fill_rows-short (suc m) i n bs a above h

is_zero-byte_len : (a : Text) → a ≢ [] → (byte_len a == 0) ≡ false
is_zero-byte_len [] h = absurd (h refl)
is_zero-byte_len (c ∷ a) h = ground arith

-- The edit distance of two texts that are not empty panics when one of them has a character that is
-- not ASCII.
pub levenshtein_distance-none :
    (a b : Text)
    → a ≢ []
    → b ≢ []
    → (length a < byte_len a) ⊎ (length b < byte_len b)
    → levenshtein_distance a b ≡ none
unfolding levenshtein_distance
levenshtein_distance-none a b p q h =
    rw
      (
        is_zero-byte_len a p,
        is_zero-byte_len b q,
        fill_rows-none (byte_len b) 1 (byte_len a) b a (count_up (byte_len a) 0)
            (is_zero-byte_len b q) h,
      )
      refl
