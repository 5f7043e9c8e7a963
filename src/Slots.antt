-- ===== src/Slots.antt =====
-- src/gui/slot_manager.rs: kinds of windows, and the slots of their buttons.
pub mod Registered
mod Examples
use escrow.Common.{
  ℕ, zero, suc, ◌+◌, ◌-◌, ◌*◌, ◌/◌, ◌%◌, ◌^◌, ◌≤◌, ◌<◌, ◌≡◌, refl, sym, ap, ◌∙◌, ◌≢◌, ◌↔◌, ◌⊎◌, inl,
  inr, Bool, true, false, not, ◌&&◌, ◌||◌, Option, none, some, List, [], ◌∷◌, ◌++◌, map, reverse,
  arith, ltb, leb, ◌==◌, if◌then◌else◌, bool_eq, is_some, or_else, Bool-cases, Option-cases,
  ==_refl, ==_eq, length, head?, drop, length-append, length-map, length-drop, retain, any, find,
  count, remove_last, count-append, retain-append, length-retain-le, length-retain, count_split,
  find-some, find-any, find-any_of, any-retain, any-append, count-any, Eq, lookup, insert, remove,
  lookup-insert, lookup-remove, DistinctKeys, text_keys, side_keys, nat_eq, Text, codes, text_eq,
  text_eq_refl, text_eq_eq, text_eq_sym, ℤ, pos, negsuc, u64_mod, wrapping_add, wrapping_sub, IsI64,
  int_eq, int_eq_iff, is_positive, wrapping_sub-wrapping_add, wrapping_sub_self, wrapping_sub_shift,
}
use escrow.Strings.{starts_with, contains}

pub data StandardSlot : Type 0 where
  purchase_button confirm_button center_slot close_button alt_close_button item_display :
      StandardSlot

abbrev pub slot : StandardSlot → ℕ
slot purchase_button = 31
slot confirm_button = 11
slot center_slot = 13
slot close_button = 50
slot alt_close_button = 49
slot item_display = 22

pub data WindowKind : Type 0 where
  bin_auction_view confirm_purchase auction_view bazaar manage_orders chest inventory : WindowKind
  unknown : Text → WindowKind

-- What stands behind the first place of `pattern`, as `find` and the slice behind it give.
abbrev pub text_behind : Text → Text → Option Text
text_behind pattern [] = if starts_with pattern [] then some [] else none
text_behind pattern (c ∷ cs) =
    let later = text_behind pattern cs in
    if starts_with pattern (c ∷ cs) then some (drop (length pattern) (c ∷ cs)) else later

-- What stands in front of the first `mark`.
abbrev pub text_before : ℕ → Text → Option Text
text_before mark [] = none
text_before mark (c ∷ cs) =
    let later : Option Text = elim (text_before mark cs) [ none ↦ none | some t ↦ some (c ∷ t) ] in
    if c == mark then some [] else later

-- The text of the first quoted `text` of a JSON title; any other title as it is.
abbrev pub clean_title : Text → Text
clean_title title = elim (text_behind (codes "\"text\":\"") title) [
  | none ↦ title
  | some rest ↦ or_else (text_before b'"' rest) title
]

abbrev pub kind_of : Text → WindowKind
kind_of t =
    if text_eq t (codes "BIN Auction View")
    then bin_auction_view
    else if text_eq t (codes "Confirm Purchase")
    then confirm_purchase
    else if text_eq t (codes "Auction View")
    then auction_view
    else if starts_with (codes "Bazaar") t
    then bazaar
    else if contains (codes "Manage") t && contains (codes "Orders") t
    then manage_orders
    else unknown t

unfoldable pub from_title : Text → WindowKind
unfolding contains
from_title title = kind_of (clean_title title)

pub record SlotManager : Type 0 where
  pub mappings : List (Text × List (Text × ℕ))

unfoldable pub new : SlotManager
new = record { mappings = [] }

-- The mappings that hold for a window with none of its own.
abbrev pub standard_slot : WindowKind → Text → Option ℕ
standard_slot bin_auction_view name =
    if text_eq name (codes "purchase")
    then some (slot purchase_button)
    else if text_eq name (codes "close")
    then some (slot close_button)
    else none
standard_slot confirm_purchase name =
    if text_eq name (codes "confirm")
    then some (slot confirm_button)
    else if text_eq name (codes "close")
    then some (slot close_button)
    else none
standard_slot bazaar name =
    if text_eq name (codes "confirm")
    then some (slot center_slot)
    else if text_eq name (codes "close")
    then some (slot close_button)
    else none
standard_slot _ name = if text_eq name (codes "close") then some (slot close_button) else none

-- The registered slots of a window, where it has any, else the standard ones.
abbrev pub slot_in : Option (List (Text × ℕ)) → WindowKind → Text → Option ℕ
slot_in (some window_map) window_kind slot_name = lookup slot_name window_map
slot_in none window_kind slot_name = standard_slot window_kind slot_name

-- `debug` prints a string as `{:?}` does.
module _ (debug : Text → Text) where
  abbrev pub window_key : WindowKind → Text
  window_key bin_auction_view = codes "BinAuctionView"
  window_key confirm_purchase = codes "ConfirmPurchase"
  window_key auction_view = codes "AuctionView"
  window_key bazaar = codes "Bazaar"
  window_key manage_orders = codes "ManageOrders"
  window_key chest = codes "Chest"
  window_key inventory = codes "Inventory"
  window_key (unknown title) = codes "Unknown(" ++ debug title ++ codes ")"

  unfoldable pub get_slot : SlotManager → WindowKind → Text → Option ℕ
  unfolding lookup
  get_slot s window_kind slot_name =
      slot_in (lookup (window_key window_kind) s.mappings) window_kind slot_name

  unfoldable pub register_slot : SlotManager → WindowKind → Text → ℕ → SlotManager
  unfolding lookup insert
  register_slot s window_kind slot_name physical_slot =
      let k = window_key window_kind in
      let window_map = insert slot_name physical_slot (or_else (lookup k s.mappings) []) in
      record s { mappings = insert k window_map s.mappings }
