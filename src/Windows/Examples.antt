-- ===== src/Windows/Examples.antt =====
-- Tests of src/gui/window_handler.rs.
use escrow.Common.{
  ◌≡◌, refl, true, false, none, some, List, [], ◌∷◌, head?, text_keys, side_keys, nat_eq, codes,
}
use escrow.Windows.{
  WindowSlot, default_window_config, find_item_by_name, find_item_containing, found, timed_out,
  wait_for_item_load,
}

abbrev slots : List WindowSlot
slots =
    record { index = 13; item_id = 355; count = 1; name = codes "bed"; display_name = none }
    ∷ record {
      index = 31;
      item_id = 371;
      count = 1;
      name = codes "gold_nugget";
      display_name = none;
    }
    ∷ []

exact_only : find_item_by_name (λ t. t) slots (codes "nugget") ≡ none
unfolding find_item_by_name
exact_only = refl

part_of_a_name : find_item_containing (λ t. t) slots (codes "nugget") ≡ some 31
unfolding find_item_containing
part_of_a_name = refl

slow_item :
    wait_for_item_load default_window_config false none ((0, none) ∷ (450_000_000, none) ∷ [])
    ≡ timed_out
unfolding wait_for_item_load
slow_item = refl

changed_item :
    wait_for_item_load default_window_config true (head? slots) (
      (0, head? slots)
      ∷ (
        9,
        some (record { index = 13; item_id = 1; count = 1; name = codes "x"; display_name = none }),
      )
      ∷ [])
    ≡ found (record { index = 13; item_id = 1; count = 1; name = codes "x"; display_name = none })
unfolding wait_for_item_load
changed_item = refl
