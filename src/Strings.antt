-- ===== src/Strings.antt =====
-- src/utils/string.rs and the methods of `str` that the modelled code calls: color codes, number
-- formatting, and trimming by Unicode white space.
pub mod Colors
pub mod Numbers
pub mod Trimming
mod Examples
use escrow.Common.{
  ℕ, zero, suc, ◌+◌, ◌-◌, ◌*◌, ◌/◌, ◌%◌, ◌^◌, ◌≤◌, ◌<◌, ◌≡◌, refl, sym, ap, ◌∙◌, ◌≢◌, ◌↔◌, ◌⊎◌, inl,
  inr, Bool, true, false, not, ◌&&◌, ◌||◌, Option, none, some, List, [], ◌∷◌, ◌++◌, map, reverse,
  arith, ltb, leb, ◌==◌, if◌then◌else◌, bool_eq, is_some, or_else, Bool-cases, Option-cases,
  ==_refl, ==_eq, length, head?, drop, length-append, length-map, length-drop, retain, any, find,
  count, remove_last, count-append, retain-append, length-retain-le, length-retain, count_split,
  find-some, find-any, find-any_of, any-retain, count-any, Eq, lookup, insert, remove,
  lookup-insert, lookup-remove, DistinctKeys, text_keys, side_keys, nat_eq, Text, codes, text_eq,
  text_eq_refl, text_eq_eq, text_eq_sym, ℤ, pos, negsuc, u64_mod, wrapping_add, wrapping_sub, IsI64,
  int_eq, int_eq_iff, is_positive, wrapping_sub-wrapping_add, wrapping_sub_self,
}

-- The code points with the property White_Space.
unfoldable pub is_whitespace : ℕ → Bool
is_whitespace c =
    (leb 9 c && leb c 13)
    || c == 32
    || c == 0x85
    || c == 0xA0
    || c == 0x1680
    || (leb 0x2000 c && leb c 0x200A)
    || c == 0x2028
    || c == 0x2029
    || c == 0x202F
    || c == 0x205F
    || c == 0x3000

unfoldable pub trim_start : Text → Text
unfolding is_whitespace
trim_start [] = []
trim_start (c ∷ cs) = let rest = trim_start cs in if is_whitespace c then rest else c ∷ cs

unfoldable pub trim_end : Text → Text
unfolding is_whitespace
trim_end [] = []
trim_end (c ∷ cs) = elim (trim_end cs) [
  | [] ↦ if is_whitespace c then [] else c ∷ []
  | d ∷ ds ↦ c ∷ d ∷ ds
]

unfoldable pub trim : Text → Text
unfolding trim_start trim_end
trim s = trim_end (trim_start s)

-- The two characters that start a color code: the section sign and its mangled form.
abbrev pub is_color_mark : ℕ → Bool
is_color_mark c = c == 0xA7 || c == 0x252C

-- A mark goes, and the character behind it.
unfoldable pub remove_minecraft_colors : Text → Text
remove_minecraft_colors [] = []
remove_minecraft_colors (c ∷ []) = if is_color_mark c then [] else c ∷ []
remove_minecraft_colors (c ∷ d ∷ cs) =
    let skipped = remove_minecraft_colors cs in
    let kept = c ∷ remove_minecraft_colors (d ∷ cs) in if is_color_mark c then skipped else kept

abbrev pub starts_with : Text → Text → Bool
starts_with [] s = true
starts_with (p ∷ ps) [] = false
starts_with (p ∷ ps) (c ∷ cs) = (p == c) && starts_with ps cs

-- `long.contains(short)`.
unfoldable pub contains : Text → Text → Bool
contains short [] = starts_with short []
contains short (c ∷ cs) = starts_with short (c ∷ cs) || contains short cs

-- The bytes of a text in UTF-8.
abbrev pub utf8_len : ℕ → ℕ
utf8_len c = if ltb c 0x80 then 1 else if ltb c 0x800 then 2 else if ltb c 0x10000 then 3 else 4

abbrev pub byte_len : Text → ℕ
byte_len [] = 0
byte_len (c ∷ cs) = utf8_len c + byte_len cs

abbrev pub is_ascii_digit : ℕ → Bool
is_ascii_digit c = leb b'0' c && leb c b'9'

abbrev pub is_ascii_upper : ℕ → Bool
is_ascii_upper c = leb b'A' c && leb c b'Z'

abbrev pub is_ascii_lower : ℕ → Bool
is_ascii_lower c = leb b'a' c && leb c b'z'

abbrev pub is_ascii_alphanumeric : ℕ → Bool
is_ascii_alphanumeric c = is_ascii_digit c || is_ascii_upper c || is_ascii_lower c

abbrev pub to_ascii_lowercase : ℕ → ℕ
to_ascii_lowercase c = if is_ascii_upper c then c + 32 else c

-- Whether a status line is one of the bot's own.
unfoldable pub is_twm_baf_synthetic_chat_line : Text → Bool
unfolding remove_minecraft_colors trim_start
is_twm_baf_synthetic_chat_line msg =
    starts_with (codes "[BAF]:") (trim_start (remove_minecraft_colors msg))

-- The lowercasing of Unicode text is a parameter.
unfoldable pub is_unstackable_item : (Text → Text) → Text → Option Text → Bool
unfolding contains
is_unstackable_item to_lowercase item_name item_tag =
    contains (codes "enchanted book") (to_lowercase item_name)
    || (elim item_tag [ none ↦ false | some tag ↦ starts_with (codes "ENCHANTMENT_") tag ])

-- The digits of a number, a separator in front of each group of three but the first.
unfoldable pub separate : Text → Text
separate [] = []
separate (d ∷ []) = d ∷ []
separate (d ∷ e ∷ ds) =
    let rest = separate (e ∷ ds) in if (length (e ∷ ds) % 3) == 0 then d ∷ b',' ∷ rest else d ∷ rest

-- The decimal digits of a number, as many as the fuel allows.
unfoldable pub decimal : ℕ → ℕ → Text
decimal zero n = []
decimal (suc fuel) n =
    let rest = decimal fuel (n / 10) ++ (b'0' + n % 10) ∷ [] in
    if ltb n 10 then (b'0' + n) ∷ [] else rest

-- A `u64` has twenty digits at most.
unfoldable pub format_number_with_separators : ℕ → Text
unfolding separate decimal
format_number_with_separators n = separate (decimal 20 n)
