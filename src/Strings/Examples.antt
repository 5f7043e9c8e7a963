-- ===== src/Strings/Examples.antt =====
-- Tests of src/utils/string.rs, and the witnesses of its theorems.
use escrow.Common.{◌≡◌, refl, true, some, [], ◌∷◌, ◌++◌, text_keys, side_keys, nat_eq, Text, codes}
use mathlib.Core.Path.{◌≡◌}
use escrow.Strings.{
  remove_minecraft_colors, format_number_with_separators, is_twm_baf_synthetic_chat_line,
  is_unstackable_item,
}

-- A name in green, whose last mark has no character behind it.
abbrev green_name : Text
green_name = 0xA7 ∷ codes "aBow" ++ 0xA7 ∷ []

green_name_plain : remove_minecraft_colors green_name ≡ codes "Bow"
unfolding remove_minecraft_colors
green_name_plain = refl

million_separated : format_number_with_separators 1234567 ≡ codes "1,234,567"
unfolding format_number_with_separators
million_separated = refl

small_unseparated : format_number_with_separators 999 ≡ codes "999"
unfolding format_number_with_separators
small_unseparated = refl

own_line : is_twm_baf_synthetic_chat_line (codes " [BAF]: hello") ≡ true
unfolding is_twm_baf_synthetic_chat_line
own_line = refl

book_by_tag : is_unstackable_item (λ t. t) (codes "Book") (some (codes "ENCHANTMENT_X_1")) ≡ true
unfolding is_unstackable_item
book_by_tag = refl
