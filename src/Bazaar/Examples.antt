-- ===== src/Bazaar/Examples.antt =====
-- Concrete trackers: tests by evaluation, and the theorems at these inputs. Lowercasing is that of
-- ASCII, a map is iterated in the order of insertion, and prices are whole numbers.
use escrow.Common.{
  ℕ, ◌+◌, ◌*◌, ◌/◌, ◌≡◌, refl, true, false, ◌&&◌, none, some, List, [], ◌∷◌, arith, Text, codes,
  map, leb, if◌then◌else◌, lookup, insert, text_keys,
}
use escrow.Bazaar.{
  BazaarOrderTracker, new_in_memory, new, add_order, clear_all_orders, mark_cancelling,
  normalize_for_match,
}
use escrow.Bazaar.Reconcile.{IngameOrder, IngameData, reconcile_with_ingame, live_cancels}
use escrow.Bazaar.Counts.{tracked_count}
use escrow.Bazaar.Matching.{
  Iterates, tracked_count-reconcile_with_ingame, reconcile_with_ingame-mark_cancelling,
}
use escrow.Bazaar.Orders.{placed}
use escrow.Bazaar.Clearing.{reconcile_with_ingame-clear_all_orders}
use escrow.Bazaar.Costs.{FloatOps, record_buy_cost, take_buy_cost}

abbrev lower : Text → Text
lower = map (λ c. if leb b'A' c && leb c b'Z' then c + 32 else c)

abbrev in_order : IngameData → IngameData
in_order m = m

in_order-Iterates : Iterates in_order
in_order-Iterates = record { distinct = λ m d. d; same = λ m d k. refl }

abbrev whole : FloatOps
whole = record { zero_f64 = 0; of_u64 = λ n. n; add = ◌+◌; mul = ◌*◌; div = ◌/◌ }

abbrev coal : Text
coal = codes "Coal"

abbrev tracker : BazaarOrderTracker
tracker = record new_in_memory {
  orders =
      placed 1000 coal 10 500 true
      ∷ placed 2000 coal 20 510 true
      ∷ placed 2000 (codes "Iron") 1 7 false
      ∷ [];
  orders_writer = none;
  last_buy_costs = [];
  buy_costs_writer = none;
  bz_list_profits = [];
  pending_cancels = [];
}

-- The window shows one coal order and a diamond order.
abbrev window : List IngameOrder
window = (codes " coal", true, 10, 500) ∷ (codes "Diamond", false, 5, 1000) ∷ []

amounts : BazaarOrderTracker → List ℕ
amounts s = map (λ o. o.amount) s.orders

reconciles_window :
    let r = reconcile_with_ingame lower in_order tracker 0 3000 window in
    (amounts r.0 ≡ 10 ∷ 5 ∷ []) × (r.1 ≡ 2)
unfolding reconcile_with_ingame amounts lookup insert normalize_for_match
reconciles_window = (refl, refl)

same_name : normalize_for_match lower (codes "  Enchanted Coal ") ≡ codes "enchanted coal"
unfolding normalize_for_match
same_name = refl

weighted_average :
    (take_buy_cost lower
      (record_buy_cost lower whole (record_buy_cost lower whole tracker coal 500 10) coal 510 10)
      coal).1
    ≡ some (505, 20)
unfolding take_buy_cost record_buy_cost lookup insert normalize_for_match
weighted_average = refl

tracked_count-reconcile_with_ingame_example :
    tracked_count lower
      (codes "coal", true)
      (reconcile_with_ingame lower in_order tracker 0 3000 window).0.orders
    ≡ 1
unfolding normalize_for_match lookup live_cancels
tracked_count-reconcile_with_ingame_example =
    tracked_count-reconcile_with_ingame lower in_order in_order-Iterates tracker 0 3000 window
      (codes "coal", true)

-- Five seconds after the cancel request.
reconcile_with_ingame-mark_cancelling_example :
    let s' = mark_cancelling lower tracker 0 (codes "DIAMOND") false in
    tracked_count lower
      (codes "diamond", false)
      (reconcile_with_ingame lower in_order s' 5_000_000_000 3000 window).0.orders
    ≡ 0
unfolding normalize_for_match
reconcile_with_ingame-mark_cancelling_example =
    reconcile_with_ingame-mark_cancelling lower in_order in_order-Iterates tracker 0 5_000_000_000
      3000 window (codes "DIAMOND") false (omega arith)

reconcile_with_ingame-clear_all_orders_example :
    let s' = (clear_all_orders lower tracker 0).0 in
    tracked_count lower
      (codes "coal", true)
      (reconcile_with_ingame lower in_order s' 5_000_000_000 3000 window).0.orders
    ≡ 0
unfolding normalize_for_match
reconcile_with_ingame-clear_all_orders_example =
    reconcile_with_ingame-clear_all_orders lower in_order in_order-Iterates tracker 0 5_000_000_000
      3000 window (codes "coal", true) (omega arith) (omega arith)

-- A start without files, and one order.
abbrev ordered : BazaarOrderTracker
ordered = add_order (new none none) 1000 coal 10 500 true
