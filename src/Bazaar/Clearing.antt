-- ===== src/Bazaar/Clearing.antt =====
-- src/bazaar_tracker.rs: orders that expire, and the clearing of all orders.
use mathlib.Core.Path.{fun_ext}
use escrow.Common.{
  ℕ, ◌-◌, ◌<◌, ◌≡◌, refl, sym, ◌∙◌, ◌⊎◌, inl, inr, Bool, false, not, some, List, [], ◌∷◌, arith,
  Text, ltb, leb, length, any, count, Bool-cases, retain, lookup, insert, lookup-insert, side_eq,
  side_keys, length-retain-le,
}
use escrow.Types.{Instant}
use escrow.Bazaar.{
  BazaarOrderTracker, TrackedBazaarOrder, OrderKey, key_of, remove_stale_orders, clear_all_orders,
  suppress_all, elapsed_secs, cancel_suppress_secs,
}
use escrow.Bazaar.Reconcile.{IngameOrder, IngameData, reconcile_with_ingame, live_cancels}
use escrow.Bazaar.Counts.{tracked_count}
use escrow.Bazaar.Matching.{Iterates, lookup-retain, tracked_count-reconcile_with_ingame}

module _ {ℓ} {A : Type ℓ} (p : A → Bool) where
  any-not-retain : (xs : List A) → any (λ x. not (p x)) (retain p xs) ≡ false
  any-not-retain [] = refl
  any-not-retain (x ∷ xs) = ground (arith, any-not-retain xs)

  count_stale : (xs : List A) → count (λ x. not (p x)) xs ≡ length xs - length (retain p xs)
  count_stale [] = omega arith
  count_stale (x ∷ xs) = ground (arith, count_stale xs, length-retain-le p xs)

  retain_again : (xs : List A) → retain p (retain p xs) ≡ retain p xs
  retain_again [] = refl
  retain_again (x ∷ xs) = ground (arith, retain_again xs)

abbrev pub has_age : ℕ → ℕ → TrackedBazaarOrder → Bool
has_age now max_age_secs o = leb max_age_secs (now - o.placed_at)

abbrev is_fresh : ℕ → ℕ → TrackedBazaarOrder → Bool
is_fresh now max_age_secs o = ltb (now - o.placed_at) max_age_secs

aged : (now max_age_secs : ℕ) → has_age now max_age_secs ≡ (λ o. not (is_fresh now max_age_secs o))
aged now max_age_secs = fun_ext λ o. ground arith

young : (now max_age_secs : ℕ) → is_fresh now max_age_secs ≡ (λ o. not (has_age now max_age_secs o))
young now max_age_secs = fun_ext λ o. ground arith

remaining_orders :
    (s : BazaarOrderTracker) (now max_age_secs : ℕ)
    → (remove_stale_orders s now max_age_secs).0.orders
      ≡ retain (is_fresh now max_age_secs) s.orders
unfolding remove_stale_orders
remaining_orders s now max_age_secs = ground arith

-- No order is left that has reached the age, all younger ones are, in their order, and the number
-- that is returned is that of the orders that had reached it.
pub remove_stale_orders_lem :
    (s : BazaarOrderTracker) (now max_age_secs : ℕ)
    → let r = remove_stale_orders s now max_age_secs in
      (any (has_age now max_age_secs) r.0.orders ≡ false)
      × (retain (λ o. not (has_age now max_age_secs o)) r.0.orders
          ≡ retain (λ o. not (has_age now max_age_secs o)) s.orders)
      × (r.1 ≡ count (has_age now max_age_secs) s.orders)
unfolding remove_stale_orders
remove_stale_orders_lem s now max_age_secs =
    let fresh = is_fresh now max_age_secs in
    (
      rw (remaining_orders s now max_age_secs, aged now max_age_secs)
          (any-not-retain fresh s.orders),
      rw (remaining_orders s now max_age_secs, ← young now max_age_secs)
          (retain_again fresh s.orders),
      rw (aged now max_age_secs) (sym (count_stale fresh s.orders)),
    )

module _ (to_lowercase : Text → Text) where
  lookup-suppress_all :
      (now : Instant) (os : List TrackedBazaarOrder) (pending : List (OrderKey × Instant))
      (k : OrderKey)
      → (lookup k pending ≡ some now) ⊎ (0 < tracked_count to_lowercase k os)
      → lookup k (suppress_all to_lowercase now os pending) ≡ some now
  unfolding suppress_all
  lookup-suppress_all now [] pending k (inl h) = h
  lookup-suppress_all now [] pending k (inr h) = absurd (omega arith)
  lookup-suppress_all now (o ∷ os) pending k h =
      let j = key_of to_lowercase o in
      elim (Bool-cases (side_eq j k)) [
        | inl g ↦
            lookup-suppress_all now os (insert j now pending) k
              (inl (lookup-insert j k now pending ∙ (rw g)))
        | inr g ↦ lookup-suppress_all now os (insert j now pending) k (elim h [
          | inl old ↦ inl (lookup-insert j k now pending ∙ (rw g old))
          | inr more ↦ inr (rw g at more)
        ])
      ]

  module _ (hash_order : IngameData → IngameData) (iterates : Iterates hash_order) where
    -- In the thirty seconds after all orders are cleared, a reconciliation brings none of them back,
    -- whatever the window still shows.
    pub reconcile_with_ingame-clear_all_orders :
        (s : BazaarOrderTracker) (cleared now : Instant) (now_secs : ℕ) (ingame : List IngameOrder)
        (k : OrderKey)
        → elapsed_secs now cleared < cancel_suppress_secs
        → 0 < tracked_count to_lowercase k s.orders
        → let s' = (clear_all_orders to_lowercase s cleared).0 in
          tracked_count to_lowercase k
            (reconcile_with_ingame to_lowercase hash_order s' now now_secs ingame).0.orders
          ≡ 0
    unfolding clear_all_orders live_cancels
    reconcile_with_ingame-clear_all_orders s cleared now now_secs ingame k h tracked =
        let s' = (clear_all_orders to_lowercase s cleared).0 in
        let found =
          lookup-retain (λ t. ltb (elapsed_secs now t) cancel_suppress_secs) k cleared
            (suppress_all to_lowercase cleared s.orders s.pending_cancels)
            (lookup-suppress_all cleared s.orders s.pending_cancels k (inr tracked))
            (ground arith) in
        tracked_count-reconcile_with_ingame to_lowercase hash_order iterates s' now now_secs ingame
          k
        ∙ (rw found (omega arith))
