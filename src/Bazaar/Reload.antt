-- ===== src/Bazaar/Reload.antt =====
-- src/bazaar_tracker.rs: a start of the program from what the writers were handed.
use escrow.Common.{◌≡◌, Option, is_some, true, List, Text}
use mathlib.Core.Option
use escrow.Bazaar.{BazaarOrderTracker, TrackedBazaarOrder, BuyCosts, new}
use escrow.Bazaar.Reconcile.{IngameData}
use escrow.Bazaar.Costs.{FloatOps}
use escrow.Bazaar.Sync.{Step}

-- The tracker has both writers.
record HasWriters (s : BazaarOrderTracker) : Type 0 where
  orders_writes : is_some s.orders_writer ≡ true
  costs_writes : is_some s.buy_costs_writer ≡ true

module _ (to_lowercase : Text → Text) (hash_order : IngameData → IngameData) (f : FloatOps) where
  -- The trackers that a start, from whatever files, and any sequence of calls lead to.
  pub data Reach : BazaarOrderTracker → Type 0 where
    started :
        (orders_file : Option (List TrackedBazaarOrder)) (costs_file : Option BuyCosts)
        → Reach (new orders_file costs_file)
    next : {s t : BazaarOrderTracker} → Reach s → Step to_lowercase hash_order f s t → Reach t
