-- ===== src/Bazaar.antt =====
-- src/bazaar_tracker.rs: the tracker of active bazaar orders. The lowercasing of Unicode text and
-- the arithmetic of `f64` are parameters. A writer is the list or map that its file holds once the
-- pending write is done; a tracker for tests has none. The locks serialise the methods.
pub mod Reconcile
pub mod Orders
pub mod Counts
pub mod Matching
pub mod Costs
pub mod Sync
pub mod Reload
pub mod Clearing
mod Examples
use escrow.Common.{
  ℕ, zero, suc, ◌+◌, ◌-◌, ◌*◌, ◌/◌, ◌%◌, Bool, true, false, not, ◌&&◌, ◌||◌, Option, none, some,
  List, [], ◌∷◌, ◌++◌, map, Text, codes, text_eq, ltb, leb, ◌==◌, if◌then◌else◌, bool_eq, or_else,
  length, retain, any, remove_last, lookup, insert, remove, ℤ, u64_mod, reverse, text_keys,
  side_keys,
}
use mathlib.Core.Option
use escrow.Types.{F64, Instant}
use escrow.Strings.{trim}

pub record TrackedBazaarOrder : Type 0 where
  pub item_name : Text
  pub amount : ℕ
  pub price_per_unit : F64
  pub is_buy_order : Bool
  pub status : Text
  pub placed_at : ℕ

-- A normalised item name and the side, `true` for a buy order.
abbrev pub OrderKey : Type 0
OrderKey = Text × Bool

abbrev pub BuyCosts : Type 0
BuyCosts = List (Text × (F64 × ℕ))

pub record BazaarOrderTracker : Type 0 where
  pub orders : List TrackedBazaarOrder
  pub orders_writer : Option (List TrackedBazaarOrder)
  pub last_buy_costs : BuyCosts
  pub buy_costs_writer : Option BuyCosts
  pub bz_list_profits : List (Text × (ℤ × ℕ))
  pub pending_cancels : List (OrderKey × Instant)

abbrev pub cancel_suppress_secs : ℕ
cancel_suppress_secs = 30

abbrev pub status_open : Text
status_open = codes "open"

abbrev pub status_filled : Text
status_filled = codes "filled"

-- `Instant::elapsed().as_secs()`.
abbrev pub elapsed_secs : Instant → Instant → ℕ
elapsed_secs now t = (now - t) / 1_000_000_000

unfoldable pub new_in_memory : BazaarOrderTracker
new_in_memory = record {
  orders = [];
  orders_writer = none;
  last_buy_costs = [];
  buy_costs_writer = none;
  bz_list_profits = [];
  pending_cancels = [];
}

unfoldable pub save_orders_to_disk : BazaarOrderTracker → BazaarOrderTracker
save_orders_to_disk s = record s { orders_writer = Option.map (λ _. s.orders) s.orders_writer }

unfoldable pub save_buy_costs_to_disk : BazaarOrderTracker → BazaarOrderTracker
save_buy_costs_to_disk s = record s {
  buy_costs_writer = Option.map (λ _. s.last_buy_costs) s.buy_costs_writer;
}

-- What the two files hold when they can be read and parsed, and the tracker's `load_from_disk`.
unfoldable pub load_from_disk :
    BazaarOrderTracker → Option (List TrackedBazaarOrder) → Option BuyCosts → BazaarOrderTracker
load_from_disk s orders_file costs_file = record s {
  orders = or_else orders_file s.orders;
  last_buy_costs = or_else costs_file s.last_buy_costs;
}

-- A start of the program. A writer begins with what its file holds, and a file that cannot be read or
-- parsed counts as an empty one.
unfoldable pub new : Option (List TrackedBazaarOrder) → Option BuyCosts → BazaarOrderTracker
unfolding load_from_disk new_in_memory
new orders_file costs_file =
    load_from_disk
      (record new_in_memory {
        orders_writer = some (or_else orders_file []);
        buy_costs_writer = some (or_else costs_file []);
      })
      orders_file costs_file

-- `iter_mut().rev().find(p)` and a change of what is found.
abbrev pub update_last {ℓ} : {A : Type ℓ} → (A → Bool) → (A → A) → List A → Option (List A)
update_last p f [] = none
update_last p f (x ∷ xs) = elim (update_last p f xs) [
  | some ys ↦ some (x ∷ ys)
  | none ↦ if p x then some (f x ∷ xs) else none
]

abbrev pub is_open : TrackedBazaarOrder → Bool
is_open o = text_eq o.status status_open

abbrev pub is_filled : TrackedBazaarOrder → Bool
is_filled o = text_eq o.status status_filled

unfoldable pub add_order : BazaarOrderTracker → ℕ → Text → ℕ → F64 → Bool → BazaarOrderTracker
unfolding save_orders_to_disk
add_order s now item_name amount price_per_unit is_buy_order =
    save_orders_to_disk (record s { orders = s.orders ++ placed ∷ [] })
  where
    placed : TrackedBazaarOrder
    placed = record {
      item_name = item_name;
      amount = amount;
      price_per_unit = price_per_unit;
      is_buy_order = is_buy_order;
      status = status_open;
      placed_at = now;
    }

unfoldable pub get_orders : BazaarOrderTracker → List TrackedBazaarOrder
get_orders s = s.orders

unfoldable pub order_count : BazaarOrderTracker → ℕ
order_count s = length s.orders

unfoldable pub has_filled_orders : BazaarOrderTracker → Bool
has_filled_orders s = any is_filled s.orders

-- `now` is the system clock in seconds.
unfoldable pub remove_stale_orders : BazaarOrderTracker → ℕ → ℕ → BazaarOrderTracker × ℕ
unfolding save_orders_to_disk
remove_stale_orders s now max_age_secs =
    let kept = retain (λ o. ltb (now - o.placed_at) max_age_secs) s.orders in
    let removed = length s.orders - length kept in
    let s' = record s { orders = kept } in
    (if ltb 0 removed then save_orders_to_disk s' else s', removed)

module _ (to_lowercase : Text → Text) where
  unfoldable pub normalize_for_match : Text → Text
  unfolding trim
  normalize_for_match name = trim (to_lowercase name)

  abbrev pub name_matches : Text → Text → Bool
  name_matches a b = text_eq (normalize_for_match a) (normalize_for_match b)

  abbrev pub key_of : TrackedBazaarOrder → OrderKey
  key_of o = (normalize_for_match o.item_name, o.is_buy_order)

  unfoldable pub mark_cancelling : BazaarOrderTracker → Instant → Text → Bool → BazaarOrderTracker
  mark_cancelling s now item_name is_buy_order = record s {
    pending_cancels = insert (normalize_for_match item_name, is_buy_order) now s.pending_cancels;
  }

  unfoldable pub mark_filled : BazaarOrderTracker → Text → Bool → BazaarOrderTracker
  unfolding save_orders_to_disk
  mark_filled s item_name is_buy_order = save_orders_to_disk (record s {
    orders =
        or_else
          (update_last
            (λ o.
              is_open o
              && bool_eq o.is_buy_order is_buy_order
              && name_matches o.item_name item_name)
            (λ o. record o { status = status_filled }) s.orders)
          s.orders;
  })

  unfoldable pub remove_order :
      BazaarOrderTracker → Text → Bool → BazaarOrderTracker × Option TrackedBazaarOrder
  unfolding save_orders_to_disk
  remove_order s item_name is_buy_order =
      elim (remove_last
        (λ o.
          (is_open o || is_filled o)
          && bool_eq o.is_buy_order is_buy_order
          && name_matches o.item_name item_name)
        s.orders) [
          | none ↦ (save_orders_to_disk s, none)
          | some (o, rest) ↦ (save_orders_to_disk (record s { orders = rest }), some o)
        ]

  -- The loop that marks every order as being cancelled.
  unfoldable pub suppress_all :
      Instant → List TrackedBazaarOrder → List (OrderKey × Instant) → List (OrderKey × Instant)
  suppress_all now [] pending = pending
  suppress_all now (o ∷ os) pending = suppress_all now os (insert (key_of o) now pending)

  unfoldable pub clear_all_orders : BazaarOrderTracker → Instant → BazaarOrderTracker × ℕ
  unfolding suppress_all save_orders_to_disk
  clear_all_orders s now = (
    save_orders_to_disk
        (record s { orders = []; pending_cancels = suppress_all now s.orders s.pending_cancels }),
    length s.orders,
  )

  -- The map is built by `collect`: a later entry writes over an earlier one of its key.
  unfoldable pub collect_normalized :
      List (Text × (ℤ × ℕ)) → List (Text × (ℤ × ℕ)) → List (Text × (ℤ × ℕ))
  collect_normalized acc [] = acc
  collect_normalized acc ((k, v) ∷ items) =
      collect_normalized (insert (normalize_for_match k) v acc) items

  unfoldable pub set_bz_list_profits :
      BazaarOrderTracker → List (Text × (ℤ × ℕ)) → BazaarOrderTracker
  unfolding collect_normalized
  set_bz_list_profits s items = record s { bz_list_profits = collect_normalized [] items }

  unfoldable pub get_bz_list_profit : BazaarOrderTracker → Text → Option ℤ
  get_bz_list_profit s item_name =
      Option.map (λ v. v.0) (lookup (normalize_for_match item_name) s.bz_list_profits)
