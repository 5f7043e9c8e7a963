-- ===== src/Bazaar/Reconcile.antt =====
-- src/bazaar_tracker.rs, `reconcile_with_ingame`: the tracked orders are brought in line with the
-- orders that the game's window shows. The order in which a hash map is iterated is a parameter,
-- `hash_order`.
use escrow.Common.{
  ℕ, suc, ◌-◌, Bool, ◌||◌, none, some, List, [], ◌∷◌, ◌++◌, Text, ltb, if◌then◌else◌, or_else,
  length, retain, find, drop, is_some, lookup, insert, text_keys, side_keys, side_eq,
}
use escrow.Types.{F64, Instant}
use escrow.Bazaar.{
  BazaarOrderTracker, TrackedBazaarOrder, OrderKey, normalize_for_match, key_of, elapsed_secs,
  cancel_suppress_secs, save_orders_to_disk, status_open,
}

-- `(item_name, is_buy_order, amount, price_per_unit)`.
abbrev pub IngameOrder : Type 0
IngameOrder = Text × Bool × ℕ × F64

abbrev pub Counts : Type 0
Counts = List (OrderKey × ℕ)

abbrev pub DataEntries : Type 0
DataEntries = List (ℕ × F64)

abbrev pub IngameData : Type 0
IngameData = List (OrderKey × DataEntries)

abbrev pub count_of : OrderKey → Counts → ℕ
count_of k m = or_else (lookup k m) 0

abbrev pub data_of : OrderKey → IngameData → DataEntries
data_of k m = or_else (lookup k m) []

-- `*entry(key).or_insert(0) += 1`.
abbrev pub bump : OrderKey → Counts → Counts
bump k m = insert k (suc (count_of k m)) m

-- The cancel requests of the last thirty seconds.
unfoldable pub live_cancels : Instant → List (OrderKey × Instant) → List (OrderKey × Instant)
live_cancels now = retain (λ e. ltb (elapsed_secs now e.1) cancel_suppress_secs)

module _ (to_lowercase : Text → Text) where
  abbrev pub ingame_key : IngameOrder → OrderKey
  ingame_key o = (normalize_for_match to_lowercase o.0, o.1)

  unfoldable pub count_ingame : Counts → List IngameOrder → Counts
  count_ingame m [] = m
  count_ingame m (o ∷ os) = count_ingame (bump (ingame_key o) m) os

  unfoldable pub collect_ingame : IngameData → List IngameOrder → IngameData
  collect_ingame m [] = m
  collect_ingame m (o ∷ os) =
      let k = ingame_key o in collect_ingame (insert k (data_of k m ++ (o.2, o.3) ∷ []) m) os

  -- `retain`, which counts what it keeps.
  unfoldable pub keep_tracked :
      Counts → Counts → List TrackedBazaarOrder → List TrackedBazaarOrder × Counts
  keep_tracked allowed kept [] = ([], kept)
  keep_tracked allowed kept (o ∷ os) =
      let k = key_of to_lowercase o in
      let keeps = ltb (count_of k kept) (count_of k allowed) in
      let (rest, kept') = keep_tracked allowed (if keeps then bump k kept else kept) os in
      (if keeps then o ∷ rest else rest, kept')

  -- The name that the first order of this key has in the window.
  unfoldable pub display_name_of : List IngameOrder → OrderKey → Text
  display_name_of ingame k = elim (find (λ o. side_eq (ingame_key o) k) ingame) [
    | some o ↦ o.0
    | none ↦ k.0
  ]

  unfoldable pub new_orders :
      List IngameOrder → ℕ → OrderKey → DataEntries → List TrackedBazaarOrder
  unfolding display_name_of
  new_orders ingame now k [] = []
  new_orders ingame now k ((amount, price) ∷ entries) =
      record {
        item_name = display_name_of ingame k;
        amount = amount;
        price_per_unit = price;
        is_buy_order = k.1;
        status = status_open;
        placed_at = now;
      }
      ∷ new_orders ingame now k entries

  -- The loop over the window's keys: what it pushes.
  unfoldable pub added_orders :
      List IngameOrder
      → ℕ
      → List (OrderKey × Instant)
      → Counts
      → IngameData
      → List TrackedBazaarOrder
  unfolding new_orders
  added_orders ingame now suppressed kept [] = []
  added_orders ingame now suppressed kept ((k, entries) ∷ es) =
      let skips = is_some (lookup k suppressed) in
      let rest =
        added_orders ingame now suppressed (if skips then kept else insert k (length entries) kept)
          es in
      if skips then rest else new_orders ingame now k (drop (count_of k kept) entries) ++ rest

  module _ (hash_order : IngameData → IngameData) where
    -- `now` is the monotonic clock, and `now_secs` the system clock in seconds.
    unfoldable pub reconcile_with_ingame :
        BazaarOrderTracker → Instant → ℕ → List IngameOrder → BazaarOrderTracker × ℕ
    unfolding count_ingame collect_ingame keep_tracked added_orders live_cancels save_orders_to_disk
    reconcile_with_ingame s now now_secs ingame =
        let (kept, kept_counts) = keep_tracked (count_ingame [] ingame) [] s.orders in
        let removed = length s.orders - length kept in
        let pending = live_cancels now s.pending_cancels in
        let added =
          added_orders ingame now_secs pending kept_counts
            (hash_order (collect_ingame [] ingame)) in
        let s' = record s { orders = kept ++ added; pending_cancels = pending } in
        (if ltb 0 removed || ltb 0 (length added) then save_orders_to_disk s' else s', removed)
