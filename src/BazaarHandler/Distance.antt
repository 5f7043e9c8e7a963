-- ===== src/BazaarHandler/Distance.antt =====
-- src/handlers/bazaar_flip_handler.rs: the edit distance of two texts. The matrix is kept row by row.
-- Its sizes are lengths in bytes but it is filled by characters: `none` is the panic of an index out
-- of range.
pub mod Scripts
pub mod Panics
use escrow.Common.{
  ℕ, zero, suc, ◌+◌, ◌-◌, ◌*◌, ◌/◌, ◌%◌, ◌^◌, ◌≤◌, ◌<◌, ◌≡◌, refl, sym, ap, ◌∙◌, ◌≢◌, ◌↔◌, ◌⊎◌, inl,
  inr, Bool, true, false, not, ◌&&◌, ◌||◌, Option, none, some, List, [], ◌∷◌, ◌++◌, map, reverse,
  arith, ltb, leb, ◌==◌, if◌then◌else◌, bool_eq, is_some, or_else, Bool-cases, Option-cases,
  ==_refl, ==_eq, length, head?, drop, length-append, length-map, length-drop, retain, any, find,
  count, remove_last, count-append, retain-append, length-retain-le, length-retain, count_split,
  find-some, find-any, find-any_of, any-retain, any-append, count-any, Eq, lookup, insert, remove,
  lookup-insert, lookup-remove, DistinctKeys, text_keys, side_keys, nat_eq, Text, codes, text_eq,
  text_eq_refl, text_eq_eq, text_eq_sym, ℤ, pos, negsuc, u64_mod, wrapping_add, wrapping_sub, IsI64,
  int_eq, int_eq_iff, is_positive, wrapping_sub-wrapping_add, wrapping_sub_self, wrapping_sub_shift,
}
use escrow.Strings.{byte_len}

abbrev pub min : ℕ → ℕ → ℕ
min a b = if leb a b then a else b

abbrev pub cost : ℕ → ℕ → ℕ
cost b a = if b == a then 0 else 1

-- The inner loop over the columns that are left: the character `b` of the row, the cell to the left,
-- and the cells of the row above from the one above that cell on.
abbrev pub fill_row : ℕ → Text → ℕ → ℕ → List ℕ → Option (List ℕ)
fill_row zero as_left b left above = some []
fill_row (suc n) [] b left above = none
fill_row (suc n) (a ∷ as_left) b left [] = none
fill_row (suc n) (a ∷ as_left) b left (d ∷ []) = none
fill_row (suc n) (a ∷ as_left) b left (d ∷ u ∷ above) =
    let v = min (min (u + 1) (left + 1)) (d + cost b a) in
    elim (fill_row n as_left b v (u ∷ above)) [ none ↦ none | some row ↦ some (v ∷ row) ]

-- The outer loop over the rows that are left, from row `i` on.
abbrev pub fill_rows : ℕ → Text → ℕ → ℕ → Text → List ℕ → Option (List ℕ)
fill_rows zero bs i len_a a_chars above = some above
fill_rows (suc m) [] i len_a a_chars above = none
fill_rows (suc m) (b ∷ bs) i len_a a_chars above = elim (fill_row len_a a_chars b i above) [
  | none ↦ none
  | some row ↦ fill_rows m bs (i + 1) len_a a_chars (i ∷ row)
]

-- `i`, `i + 1` and so on, as many as `n + 1`.
abbrev pub count_up : ℕ → ℕ → List ℕ
count_up zero i = i ∷ []
count_up (suc n) i = i ∷ count_up n (i + 1)

abbrev pub last_cell : List ℕ → ℕ
last_cell [] = 0
last_cell (x ∷ []) = x
last_cell (x ∷ y ∷ xs) = last_cell (y ∷ xs)

unfoldable pub levenshtein_distance : Text → Text → Option ℕ
levenshtein_distance a b =
    let len_a = byte_len a in
    let len_b = byte_len b in
    if len_a == 0
    then some len_b
    else if len_b == 0
    then some len_a
    else (elim (fill_rows len_b b 1 len_a a (count_up len_a 0)) [
      | none ↦ none
      | some row ↦ some (last_cell row)
    ])
