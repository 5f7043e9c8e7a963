-- ===== src/Seller/Config.antt =====
-- src/seller/config.rs: what is stored, how it is cleaned, and how the token is masked.
pub mod Cleaning
use escrow.Common.{
  ℕ, zero, suc, ◌+◌, ◌-◌, ◌*◌, ◌/◌, ◌%◌, ◌^◌, ◌≤◌, ◌<◌, ◌≡◌, refl, sym, ap, ◌∙◌, ◌≢◌, ◌↔◌, ◌⊎◌, inl,
  inr, Bool, true, false, not, ◌&&◌, ◌||◌, Option, none, some, List, [], ◌∷◌, ◌++◌, map, reverse,
  arith, ltb, leb, ◌==◌, if◌then◌else◌, bool_eq, is_some, or_else, Bool-cases, Option-cases,
  ==_refl, ==_eq, length, head?, drop, length-append, length-map, length-drop, retain, any, find,
  count, remove_last, count-append, retain-append, length-retain-le, length-retain, count_split,
  find-some, find-any, find-any_of, any-retain, any-append, count-any, Eq, lookup, insert, remove,
  lookup-insert, lookup-remove, DistinctKeys, text_keys, side_keys, nat_eq, Text, codes, text_eq,
  text_eq_refl, text_eq_eq, text_eq_sym, ℤ, pos, negsuc, u64_mod, wrapping_add, wrapping_sub, IsI64,
  int_eq, int_eq_iff, is_positive, wrapping_sub-wrapping_add, wrapping_sub_self, wrapping_sub_shift,
}
use escrow.Strings.{is_whitespace, trim, trim_start, trim_end, byte_len}
use mathlib.Core.List.{reverse_aux, reverse-append, reverse-reverse}
use escrow.Strings.Trimming.{trim_idem}
use escrow.Ownership.{is_empty_text}

abbrev pub min_cooldown_seconds : ℕ
min_cooldown_seconds = 5

abbrev pub max_selected_items : ℕ
max_selected_items = 10

pub data SelectedItem : Type 0 where
  inventory : (slot : ℕ) (include_price : Bool) → SelectedItem
  auction : (uuid : Text) (include_price : Bool) → SelectedItem

unfoldable pub include_price : SelectedItem → Bool
include_price (inventory _ p) = p
include_price (auction _ p) = p

pub record SellerChannel : Type 0 where
  pub channel_id : Text
  pub cooldown_seconds : ℕ

pub record SellerConfig : Type 0 where
  pub token : Text
  pub message : Text
  pub selected_items : List SelectedItem
  pub channels : List SellerChannel

abbrev pub default_config : SellerConfig
default_config = record { token = []; message = []; selected_items = []; channels = [] }

abbrev pub take {ℓ} : {A : Type ℓ} → ℕ → List A → List A
take zero xs = []
take (suc n) [] = []
take (suc n) (x ∷ xs) = x ∷ take n xs

abbrev pub is_named : SellerChannel → Bool
is_named c = not (is_empty_text (trim c.channel_id))

abbrev pub clean_channel : SellerChannel → SellerChannel
clean_channel c = record {
  channel_id = trim c.channel_id;
  cooldown_seconds =
      if ltb c.cooldown_seconds min_cooldown_seconds
      then min_cooldown_seconds
      else c.cooldown_seconds;
}

unfoldable pub sanitized : SellerConfig → SellerConfig
unfolding trim
sanitized s = record {
  token = trim s.token;
  message = s.message;
  selected_items =
      if ltb max_selected_items (length s.selected_items)
      then take max_selected_items s.selected_items
      else s.selected_items;
  channels = map clean_channel (retain is_named s.channels);
}

abbrev pub repeat : ℕ → ℕ → Text
repeat zero c = []
repeat (suc n) c = c ∷ repeat n c

-- `chars().rev().take(4)`, turned round again.
abbrev pub last_chars : ℕ → Text → Text
last_chars n t = reverse (take n (reverse t))

-- The two characters of the result that are not the token's: a bullet and an ellipsis.
abbrev pub bullet : ℕ
bullet = 0x2022

abbrev pub ellipsis : ℕ
ellipsis = 0x2026

unfoldable pub mask_token : Text → Text
unfolding trim
mask_token t =
    let token = trim t in
    let chars = length token in
    if is_empty_text token
    then []
    else if leb (byte_len token) 10
    then repeat (if ltb chars 8 then chars else 8) bullet
    else take 4 token ++ ellipsis ∷ last_chars 4 token

unfoldable pub masked : SellerConfig → SellerConfig
unfolding mask_token
masked s = record s { token = mask_token s.token }

-- The JSON library: what it writes, and what it reads from a text.
pub record ConfigJson : Type 0 where
  pub to_string_pretty : SellerConfig → Text
  pub from_str : Text → Option SellerConfig

-- What a path leads to.
pub data File : Type 0 where
  missing unreadable : File
  contents : Text → File

-- `none` is an error, which is reported.
unfoldable pub load_from : ConfigJson → File → Option SellerConfig
unfolding sanitized
load_from json missing = some default_config
load_from json unreadable = none
load_from json (contents raw) = elim (json.from_str raw) [
  | none ↦ none
  | some c ↦ some (sanitized c)
]

-- The file that a save leaves where no input or output fails.
unfoldable pub save_to : ConfigJson → SellerConfig → File
unfolding sanitized
save_to json s = contents (json.to_string_pretty (sanitized s))
