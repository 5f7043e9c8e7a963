-- ===== src/Bazaar/Orders.antt =====
-- src/bazaar_tracker.rs: placing, filling, collecting, expiring and clearing orders.
use escrow.Common.{
  ℕ, ◌≡◌, refl, Bool, true, false, ◌||◌, ◌&&◌, some, List, [], ◌∷◌, ◌++◌, arith, Text, bool_eq,
  side_keys, remove_last,
}
use escrow.Types.{F64}
use escrow.Bazaar.{
  BazaarOrderTracker, TrackedBazaarOrder, name_matches, add_order, mark_filled, remove_order,
  update_last, is_open, is_filled, status_open, status_filled,
}

module _ {ℓ} {A : Type ℓ} (p : A → Bool) where
  remove_last-append :
      (xs : List A) (x : A) → p x ≡ true → remove_last p (xs ++ x ∷ []) ≡ some (x, xs)
  remove_last-append [] x h = ground arith
  remove_last-append (y ∷ ys) x h = ground (arith, remove_last-append ys x h)

  update_last-append :
      (f : A → A) (xs : List A) (x : A)
      → p x ≡ true
      → update_last p f (xs ++ x ∷ []) ≡ some (xs ++ f x ∷ [])
  update_last-append f [] x h = ground arith
  update_last-append f (y ∷ ys) x h = ground (arith, update_last-append f ys x h)

bool_eq_refl : (b : Bool) → bool_eq b b ≡ true
bool_eq_refl true = refl
bool_eq_refl false = refl

-- The order that `add_order` builds of its arguments.
abbrev pub placed : ℕ → Text → ℕ → F64 → Bool → TrackedBazaarOrder
placed now item_name amount price_per_unit is_buy_order = record {
  item_name = item_name;
  amount = amount;
  price_per_unit = price_per_unit;
  is_buy_order = is_buy_order;
  status = status_open;
  placed_at = now;
}

module _ (to_lowercase : Text → Text) where
  -- An order that was just placed is the one that is collected or cancelled under its name, in any
  -- spelling that normalises alike: its data is returned, and the other orders are as before.
  pub remove_order-add_order :
      (s : BazaarOrderTracker) (now : ℕ) (item_name item_name' : Text) (amount : ℕ) (price : F64)
      (is_buy : Bool)
      → name_matches to_lowercase item_name item_name' ≡ true
      → let r =
          remove_order to_lowercase
            (add_order s now item_name amount price is_buy)
            item_name'
            is_buy in
        (r.1 ≡ some (placed now item_name amount price is_buy)) × (r.0.orders ≡ s.orders)
  unfolding add_order remove_order
  remove_order-add_order s now item_name item_name' amount price is_buy h =
      rw
        (
          remove_last-append
              (λ o.
                (is_open o || is_filled o)
                && bool_eq o.is_buy_order is_buy
                && name_matches to_lowercase o.item_name item_name')
              s.orders (placed now item_name amount price is_buy) (rw (bool_eq_refl is_buy, h)),
          remove_order,
        )
        (refl, refl)

  -- Once it is marked as filled, it is collected with that status, and again the other orders are
  -- as before.
  pub remove_order-mark_filled :
      (s : BazaarOrderTracker) (now : ℕ) (item_name item_name' : Text) (amount : ℕ) (price : F64)
      (is_buy : Bool)
      → name_matches to_lowercase item_name item_name' ≡ true
      → let s' =
          mark_filled to_lowercase
            (add_order s now item_name amount price is_buy)
            item_name'
            is_buy in
        let r = remove_order to_lowercase s' item_name' is_buy in
        (r.1 ≡ some (record (placed now item_name amount price is_buy) { status = status_filled }))
        × (r.0.orders ≡ s.orders)
  unfolding add_order mark_filled remove_order
  remove_order-mark_filled s now item_name item_name' amount price is_buy h =
      let o = placed now item_name amount price is_buy in
      rw
        (update_last-append
          (λ o.
            is_open o
            && bool_eq o.is_buy_order is_buy
            && name_matches to_lowercase o.item_name item_name')
          (λ o. record o { status = status_filled }) s.orders o (rw (bool_eq_refl is_buy, h)))
        (rw
          (
            remove_last-append
                (λ o.
                  (is_open o || is_filled o)
                  && bool_eq o.is_buy_order is_buy
                  && name_matches to_lowercase o.item_name item_name')
                s.orders (record o { status = status_filled }) (rw (bool_eq_refl is_buy, h)),
            remove_order,
          )
          (refl, refl))
