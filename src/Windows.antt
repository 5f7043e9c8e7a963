-- ===== src/Windows.antt =====
-- src/gui/window_handler.rs: the settings of window operations, finding a slot by its name, and the
-- wait for an item. Every poll of a loop is one element of a list: the time since the loop began, in
-- nanoseconds, and what the poll finds. Unicode lowercasing is a parameter.
mod Examples
use escrow.Common.{
  ℕ, zero, suc, ◌+◌, ◌-◌, ◌*◌, ◌/◌, ◌%◌, ◌^◌, ◌≤◌, ◌<◌, ◌≡◌, refl, sym, ap, ◌∙◌, ◌≢◌, ◌↔◌, ◌⊎◌, inl,
  inr, Bool, true, false, not, ◌&&◌, ◌||◌, Option, none, some, List, [], ◌∷◌, ◌++◌, map, reverse,
  arith, ltb, leb, ◌==◌, if◌then◌else◌, bool_eq, is_some, or_else, Bool-cases, Option-cases,
  ==_refl, ==_eq, length, head?, drop, length-append, length-map, length-drop, retain, any, find,
  count, remove_last, count-append, retain-append, length-retain-le, length-retain, count_split,
  find-some, find-any, find-any_of, any-retain, any-append, count-any, Eq, lookup, insert, remove,
  lookup-insert, lookup-remove, DistinctKeys, text_keys, side_keys, nat_eq, Text, codes, text_eq,
  text_eq_refl, text_eq_eq, text_eq_sym, ℤ, pos, negsuc, u64_mod, wrapping_add, wrapping_sub, IsI64,
  int_eq, int_eq_iff, is_positive, wrapping_sub-wrapping_add, wrapping_sub_self, wrapping_sub_shift,
}
use escrow.Strings.{remove_minecraft_colors, contains}

pub record WindowConfig : Type 0 where
  pub default_timeout : ℕ
  pub flip_action_delay : ℕ
  pub bed_spam_click_delay : ℕ
  pub bed_spam_max_failed_clicks : ℕ

abbrev pub default_window_config : WindowConfig
default_window_config = record {
  default_timeout = 5_000_000_000;
  flip_action_delay = 150_000_000;
  bed_spam_click_delay = 100_000_000;
  bed_spam_max_failed_clicks = 5;
}

-- The item's data tag is read by no modelled code.
pub record WindowSlot : Type 0 where
  pub index : ℕ
  pub item_id : ℕ
  pub count : ℕ
  pub name : Text
  pub display_name : Option Text

abbrev pub is_slot : ℕ → WindowSlot → Bool
is_slot i s = s.index == i

module _ (to_lowercase : Text → Text) where
  abbrev pub clean_name : Text → Text
  clean_name name = to_lowercase (remove_minecraft_colors name)

  unfoldable pub find_item_by_name : List WindowSlot → Text → Option ℕ
  unfolding remove_minecraft_colors
  find_item_by_name slots name =
      elim (find (λ s. text_eq (clean_name s.name) (clean_name name)) slots) [
        | none ↦ none
        | some s ↦ some s.index
      ]

  unfoldable pub find_item_containing : List WindowSlot → Text → Option ℕ
  unfolding remove_minecraft_colors contains
  find_item_containing slots name =
      elim (find (λ s. contains (clean_name name) (clean_name s.name)) slots) [
        | none ↦ none
        | some s ↦ some s.index
      ]

-- How a wait ends: with an item, at its timeout, or not yet.
pub data Loaded : Type 0 where
  found : WindowSlot → Loaded
  timed_out : Loaded
  waiting : Loaded

-- Whether the slot that a poll finds ends the wait.
abbrev pub is_loaded : Bool → Option Text → WindowSlot → Bool
is_loaded true none slot = true
is_loaded true (some initial) slot = not (text_eq slot.name initial)
is_loaded false initial slot = not (length slot.name == 0)

abbrev pub poll_item : Bool → Option Text → Option WindowSlot → Option WindowSlot
poll_item already_loaded initial none = none
poll_item already_loaded initial (some slot) =
    if is_loaded already_loaded initial slot then some slot else none

unfoldable pub item_loop : ℕ → Bool → Option Text → List (ℕ × Option WindowSlot) → Loaded
item_loop timeout already_loaded initial [] = waiting
item_loop timeout already_loaded initial ((elapsed, seen) ∷ polls) =
    let rest = item_loop timeout already_loaded initial polls in
    if leb timeout elapsed
    then timed_out
    else (elim (poll_item already_loaded initial seen) [ some slot ↦ found slot | none ↦ rest ])

abbrev pub initial_name : Bool → Option WindowSlot → Option Text
initial_name true (some slot) = some slot.name
initial_name _ _ = none

-- `first` is what the slot holds before the loop.
unfoldable pub wait_for_item_load :
    WindowConfig → Bool → Option WindowSlot → List (ℕ × Option WindowSlot) → Loaded
unfolding item_loop
wait_for_item_load config already_loaded first polls =
    item_loop (config.flip_action_delay * 3) already_loaded (initial_name already_loaded first)
      polls
