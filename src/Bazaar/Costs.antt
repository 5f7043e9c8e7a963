-- ===== src/Bazaar/Costs.antt =====
-- src/bazaar_tracker.rs: the buy costs that a later sale of the item is set against.
use escrow.Common.{
  ℕ, ◌+◌, ◌%◌, ◌≡◌, ◌∙◌, true, Option, none, some, arith, Text, ltb, if◌then◌else◌, or_else, lookup,
  insert, remove, lookup-insert, lookup-remove, u64_mod, text_eq, text_keys, text_eq_refl,
  text_eq_eq,
}
use escrow.Types.{F64}
use escrow.Bazaar.{BazaarOrderTracker, normalize_for_match, name_matches, save_buy_costs_to_disk}

-- The arithmetic of `f64` that the code calls, on bit patterns.
pub record FloatOps : Type 0 where
  pub zero_f64 : F64
  pub of_u64 : ℕ → F64
  pub add : F64 → F64 → F64
  pub mul : F64 → F64 → F64
  pub div : F64 → F64 → F64

module _ (f : FloatOps) where
  -- The entry of an item once more units are added: the average price weighted by the amounts.
  -- The sum of the amounts is a `u64`.
  unfoldable pub combined : F64 × ℕ → F64 → ℕ → F64 × ℕ
  combined (old_price, old_amount) price_per_unit amount =
      let combined_amount = (old_amount + amount) % u64_mod in
      (
        if ltb 0 combined_amount
            then f.div
                (f.add (f.mul old_price (f.of_u64 old_amount))
                  (f.mul price_per_unit (f.of_u64 amount)))
                (f.of_u64 combined_amount)
            else f.zero_f64,
        combined_amount,
      )

module _ (to_lowercase : Text → Text) (f : FloatOps) where
  unfoldable pub record_buy_cost : BazaarOrderTracker → Text → F64 → ℕ → BazaarOrderTracker
  unfolding combined save_buy_costs_to_disk
  record_buy_cost s item_name price_per_unit amount =
      let key = normalize_for_match to_lowercase item_name in
      save_buy_costs_to_disk (record s {
        last_buy_costs =
            insert key
              (combined f (or_else (lookup key s.last_buy_costs) (f.zero_f64, 0)) price_per_unit
                amount)
              s.last_buy_costs;
      })

module _ (to_lowercase : Text → Text) where
  unfoldable pub take_buy_cost : BazaarOrderTracker → Text → BazaarOrderTracker × Option (F64 × ℕ)
  unfolding save_buy_costs_to_disk
  take_buy_cost s item_name =
      let key = normalize_for_match to_lowercase item_name in
      (
        save_buy_costs_to_disk (record s { last_buy_costs = remove key s.last_buy_costs }),
        lookup key s.last_buy_costs,
      )

module _ (to_lowercase : Text → Text) (f : FloatOps) where
  -- What is recorded for an item is taken back once, under any spelling of the name that normalises
  -- alike: the recorded purchase combined with what was stored before, if anything was. Afterwards
  -- the item has no cost, and every other has the one that it had.
  pub take_buy_cost-record_buy_cost :
      (s : BazaarOrderTracker) (item_name item_name' : Text) (price : F64) (amount : ℕ)
      (other : Text)
      → name_matches to_lowercase item_name item_name' ≡ true
      → let key = normalize_for_match to_lowercase item_name in
        let before = or_else (lookup key s.last_buy_costs) (f.zero_f64, 0) in
        let r =
          take_buy_cost to_lowercase
            (record_buy_cost to_lowercase f s item_name price amount)
            item_name' in
        (r.1 ≡ some (combined f before price amount))
        × (lookup other r.0.last_buy_costs
            ≡ (if text_eq key other then none else lookup other s.last_buy_costs))
  unfolding record_buy_cost take_buy_cost
  take_buy_cost-record_buy_cost s item_name item_name' price amount other h =
      let key = normalize_for_match to_lowercase item_name in
      let entry = combined f (or_else (lookup key s.last_buy_costs) (f.zero_f64, 0)) price amount in
      rw (← text_eq_eq key (normalize_for_match to_lowercase item_name') h) (
        lookup-insert key key entry s.last_buy_costs ∙ (rw (text_eq_refl key)),
        lookup-remove key other (insert key entry s.last_buy_costs)
            ∙ (ground (arith, lookup-insert key other entry s.last_buy_costs)),
      )
