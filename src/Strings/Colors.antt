-- ===== src/Strings/Colors.antt =====
-- src/utils/string.rs: what `remove_minecraft_colors` leaves.
use escrow.Common.{
  ◌+◌, ◌*◌, ◌≤◌, ◌≡◌, refl, false, [], ◌∷◌, arith, length, any, count, text_keys, side_keys, nat_eq,
  Text,
}
use escrow.Strings.{is_color_mark, remove_minecraft_colors}

abbrev pub NoMarks : Text → Type 0
NoMarks s = any is_color_mark s ≡ false

-- No mark is left.
pub remove_minecraft_colors-NoMarks : (s : Text) → NoMarks (remove_minecraft_colors s)
unfolding remove_minecraft_colors
remove_minecraft_colors-NoMarks [] = refl
remove_minecraft_colors-NoMarks (c ∷ []) = ground arith
remove_minecraft_colors-NoMarks (c ∷ d ∷ cs) =
    ground (arith, remove_minecraft_colors-NoMarks cs, remove_minecraft_colors-NoMarks (d ∷ cs))

-- A text with no mark stays as it is.
pub remove_minecraft_colors_id : (s : Text) → NoMarks s → remove_minecraft_colors s ≡ s
unfolding remove_minecraft_colors
remove_minecraft_colors_id [] h = refl
remove_minecraft_colors_id (c ∷ []) h = ground arith
remove_minecraft_colors_id (c ∷ d ∷ cs) h = ground (arith, remove_minecraft_colors_id (d ∷ cs))

pub length-remove_minecraft_colors :
    (s : Text) → length s ≤ length (remove_minecraft_colors s) + 2 * count is_color_mark s
unfolding remove_minecraft_colors
length-remove_minecraft_colors [] = omega arith
length-remove_minecraft_colors (c ∷ []) = ground arith
length-remove_minecraft_colors (c ∷ d ∷ cs) =
    ground (arith, length-remove_minecraft_colors cs, length-remove_minecraft_colors (d ∷ cs))

-- Taking the color codes out leaves no mark that could start one, a second pass changes nothing,
-- and each mark costs the text two characters at most.
pub remove_minecraft_colors_lem :
    (s : Text)
    → NoMarks (remove_minecraft_colors s)
      × (remove_minecraft_colors (remove_minecraft_colors s) ≡ remove_minecraft_colors s)
      × (length s ≤ length (remove_minecraft_colors s) + 2 * count is_color_mark s)
remove_minecraft_colors_lem s = (
  remove_minecraft_colors-NoMarks s,
  remove_minecraft_colors_id (remove_minecraft_colors s) (remove_minecraft_colors-NoMarks s),
  length-remove_minecraft_colors s,
)
