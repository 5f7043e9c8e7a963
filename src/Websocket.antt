-- ===== src/Websocket.antt =====
-- src/websocket/client.rs: the addresses of servers, and the list of licenses that the server sends as
-- chat messages. A message is its text.
pub mod Addresses
pub mod Licenses
mod Examples
use escrow.Common.{
  ℕ, zero, suc, ◌+◌, ◌-◌, ◌*◌, ◌/◌, ◌%◌, ◌^◌, ◌≤◌, ◌<◌, ◌≡◌, refl, sym, ap, ◌∙◌, ◌≢◌, ◌↔◌, ◌⊎◌, inl,
  inr, Bool, true, false, not, ◌&&◌, ◌||◌, Option, none, some, List, [], ◌∷◌, ◌++◌, map, reverse,
  arith, ltb, leb, ◌==◌, if◌then◌else◌, bool_eq, is_some, or_else, Bool-cases, Option-cases,
  ==_refl, ==_eq, length, head?, drop, length-append, length-map, length-drop, retain, any, find,
  count, remove_last, count-append, retain-append, length-retain-le, length-retain, count_split,
  find-some, find-any, find-any_of, any-retain, any-append, count-any, Eq, lookup, insert, remove,
  lookup-insert, lookup-remove, DistinctKeys, text_keys, side_keys, nat_eq, Text, codes, text_eq,
  text_eq_refl, text_eq_eq, text_eq_sym, ℤ, pos, negsuc, u64_mod, wrapping_add, wrapping_sub, IsI64,
  int_eq, int_eq_iff, is_positive, wrapping_sub-wrapping_add, wrapping_sub_self, wrapping_sub_shift,
}
use escrow.Strings.{contains, starts_with, is_ascii_digit}
use escrow.Panel.{strip_prefix, split, parse_digits}

-- What stands behind the scheme.
unfoldable pub host_of : Text → Text
unfolding strip_prefix
host_of url = elim (strip_prefix (codes "wss://") url) [
  | some host ↦ host
  | none ↦ elim (strip_prefix (codes "ws://") url) [ some host ↦ host | none ↦ url ]
]

abbrev pub is_cofl_host : Text → Bool
is_cofl_host host = contains (codes "coflnet") host || contains (codes "/modsocket") host

unfoldable pub is_cofl_url : Text → Bool
unfolding host_of contains
is_cofl_url url = is_cofl_host (host_of url)

unfoldable pub normalize_ws_url : Text → Text
unfolding is_cofl_url host_of contains
normalize_ws_url url =
    if not (is_cofl_url url) && starts_with (codes "ws://") url
    then (if not (contains (codes "/") (host_of url)) then url ++ codes "/" else url)
    else codes "wss://" ++ host_of url

abbrev pub take_while : (ℕ → Bool) → Text → Text
take_while p [] = []
take_while p (c ∷ cs) = let rest = take_while p cs in if p c then c ∷ rest else []

abbrev pub drop_while : (ℕ → Bool) → Text → Text
drop_while p [] = []
drop_while p (c ∷ cs) = let rest = drop_while p cs in if p c then rest else c ∷ cs

-- The characters of a name or a tier.
abbrev pub is_name_char : ℕ → Bool
is_name_char c = not (c == b' ') && not (c == 0xA7)

-- What stands behind the first place where the marker is.
unfoldable pub after_first : Text → Text → Option Text
unfolding strip_prefix
after_first marker [] = strip_prefix marker []
after_first marker (c ∷ cs) =
    let rest = after_first marker cs in
    elim (strip_prefix marker (c ∷ cs)) [ some after ↦ some after | none ↦ rest ]

abbrev pub unstruck : Text → Text
unstruck after = elim (strip_prefix (codes "§m") after) [ some t ↦ t | none ↦ after ]

abbrev pub or_none : Text → Text
or_none [] = codes "NONE"
or_none (c ∷ cs) = c ∷ cs

unfoldable pub extract_license_tier : Text → Text
unfolding after_first strip_prefix
extract_license_tier text = elim (after_first (codes "§2") text) [
  | none ↦ codes "NONE"
  | some after ↦ or_none (take_while is_name_char (unstruck after))
]

pub record License : Type 0 where
  pub ign : Text
  pub index : ℕ
  pub tier : Text

abbrev pub entry_of : ℕ → Text → Text → List License
entry_of index [] rest = []
entry_of index (c ∷ cs) rest =
    record { ign = c ∷ cs; index = index; tier = extract_license_tier rest } ∷ []

-- The entry whose name begins the text.
abbrev pub entry_at : ℕ → Text → List License
entry_at index rest = entry_of index (take_while is_name_char rest) (drop_while is_name_char rest)

abbrev pub u32_mod : ℕ
u32_mod = 4_294_967_296

abbrev pub parse_u32 : Text → Option ℕ
parse_u32 [] = none
parse_u32 (c ∷ cs) = elim (parse_digits 0 (c ∷ cs)) [
  | none ↦ none
  | some n ↦ if ltb n u32_mod then some n else none
]

-- The numbered form, from behind the color.
abbrev pub numbered_entry : Text → List License
numbered_entry after_color =
    elim (strip_prefix (codes "> §a") (drop_while is_ascii_digit after_color)) [
      | none ↦ []
      | some start ↦ elim (parse_u32 (take_while is_ascii_digit after_color)) [
        | none ↦ []
        | some index ↦ entry_at index start
      ]
    ]

-- A line: the counter of the lines without a number, and the entry.
unfoldable pub parse_line : ℕ → Text → ℕ × List License
unfolding strip_prefix extract_license_tier parse_digits
parse_line counter line = elim (strip_prefix (codes "§7> §a") line) [
  | some rest ↦ ((counter + 1) % u32_mod, entry_at ((counter + 1) % u32_mod) rest)
  | none ↦ elim (strip_prefix (codes "§7") line) [
    | none ↦ (counter, [])
    | some after_color ↦ (counter, numbered_entry after_color)
  ]
]

unfoldable pub parse_all_lines : ℕ → List Text → ℕ × List License
parse_all_lines counter [] = (counter, [])
parse_all_lines counter (line ∷ lines) =
    let (next, found) = parse_line counter line in
    let (last, others) = parse_all_lines next lines in (last, found ++ others)

unfoldable pub parse_messages : ℕ → List Text → List License
unfolding parse_all_lines split
parse_messages counter [] = []
parse_messages counter (text ∷ texts) =
    let (next, found) = parse_all_lines counter (split 10 text) in
    found ++ parse_messages next texts

unfoldable pub parse_license_entries : List Text → List License
unfolding parse_messages
parse_license_entries messages = parse_messages 0 messages

-- The number behind the first place where it may stand.
abbrev pub page_in : Text → Option ℕ
page_in text = elim (after_first (codes "(page ") text) [
  | none ↦ none
  | some rest ↦ parse_u32 (take_while is_ascii_digit rest)
]

unfoldable pub parse_license_page_number : List Text → ℕ
unfolding after_first parse_digits
parse_license_page_number [] = 1
parse_license_page_number (text ∷ texts) =
    let rest = parse_license_page_number texts in elim (page_in text) [ some n ↦ n | none ↦ rest ]
