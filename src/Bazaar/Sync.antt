-- ===== src/Bazaar/Sync.antt =====
-- src/bazaar_tracker.rs: what the writers hand to the disk never falls behind the tracker.
use escrow.Common.{
  ℕ, ◌≡◌, refl, Bool, Option, none, some, List, [], ◌∷◌, arith, Text, ℤ, ltb, ◌||◌, length,
  Bool-cases, inl, inr, retain, ◌-◌, ap, ◌≤◌, length-retain-le, nil_of_length,
}
use mathlib.Core.List.{append-nil}
use escrow.Types.{F64, Instant}
use escrow.Bazaar.{
  BazaarOrderTracker, TrackedBazaarOrder, key_of, save_orders_to_disk, mark_cancelling, add_order,
  mark_filled, remove_order, remove_stale_orders, clear_all_orders, set_bz_list_profits,
}
use escrow.Bazaar.Reconcile.{
  IngameOrder, IngameData, reconcile_with_ingame, Counts, count_of, bump, keep_tracked,
  added_orders, count_ingame, collect_ingame, live_cancels,
}
use escrow.Bazaar.Costs.{FloatOps, record_buy_cost, take_buy_cost}

abbrev pub Holds {ℓ} : {A : Type ℓ} → Option A → A → Type ℓ
Holds none a = Unit
Holds (some b) a = b ≡ a

-- A writer, where there is one, holds the tracker's present orders and costs.
pub record InSync (s : BazaarOrderTracker) : Type 0 where
  pub orders_saved : Holds s.orders_writer s.orders
  pub costs_saved : Holds s.buy_costs_writer s.last_buy_costs

-- After a save the orders are held, whatever was before.
save_orders-InSync :
    (s : BazaarOrderTracker)
    → Holds s.buy_costs_writer s.last_buy_costs
    → InSync (save_orders_to_disk s)
unfolding save_orders_to_disk
save_orders-InSync s h = ground arith

module _ {ℓ} {A : Type ℓ} (p : A → Bool) where
  retain_all : (xs : List A) → length xs - length (retain p xs) ≡ 0 → retain p xs ≡ xs
  retain_all [] h = refl
  retain_all (x ∷ xs) h = ground (arith, retain_all xs, length-retain-le p xs)

module _ (to_lowercase : Text → Text) where
  length-keep_tracked-le :
      (allowed kept : Counts) (os : List TrackedBazaarOrder)
      → length (keep_tracked to_lowercase allowed kept os).0 ≤ length os
  unfolding keep_tracked
  length-keep_tracked-le allowed kept [] = omega arith
  length-keep_tracked-le allowed kept (o ∷ os) =
      let k = key_of to_lowercase o in
      let keeps = ltb (count_of k kept) (count_of k allowed) in
      elim (Bool-cases keeps) [
        | inl e ↦ rw e (omega (arith, length-keep_tracked-le allowed (bump k kept) os))
        | inr e ↦ rw e (omega (arith, length-keep_tracked-le allowed kept os))
      ]

  -- Where none is taken out, the list is as it was.
  keep_tracked_all :
      (allowed kept : Counts) (os : List TrackedBazaarOrder)
      → length os - length (keep_tracked to_lowercase allowed kept os).0 ≡ 0
      → (keep_tracked to_lowercase allowed kept os).0 ≡ os
  unfolding keep_tracked
  keep_tracked_all allowed kept [] h = refl
  keep_tracked_all allowed kept (o ∷ os) h =
      let k = key_of to_lowercase o in
      let keeps = ltb (count_of k kept) (count_of k allowed) in
      elim (Bool-cases keeps) [
        | inl e ↦
            rw e (ap (◌∷◌ o) (keep_tracked_all allowed (bump k kept) os (omega (arith, rw e at h))))
        | inr e ↦ absurd (omega (arith, rw e at h, length-keep_tracked-le allowed kept os))
      ]

remove_stale_orders-InSync :
    (s : BazaarOrderTracker) (now max_age : ℕ)
    → InSync s
    → InSync (remove_stale_orders s now max_age).0
unfolding remove_stale_orders
remove_stale_orders-InSync s now max_age v =
    let fresh = λ (o : TrackedBazaarOrder). ltb (now - o.placed_at) max_age in
    elim (Bool-cases (ltb 0 (length s.orders - length (retain fresh s.orders)))) [
      | inl e ↦ rw e (save_orders-InSync _ v.costs_saved)
      | inr e ↦
          rw (e, retain_all fresh s.orders (ground arith))
            (record { orders_saved = v.orders_saved; costs_saved = v.costs_saved })
    ]

module _ (to_lowercase : Text → Text) (hash_order : IngameData → IngameData) where
  reconcile_with_ingame-InSync :
      (s : BazaarOrderTracker) (now : Instant) (secs : ℕ) (ingame : List IngameOrder)
      → InSync s
      → InSync (reconcile_with_ingame to_lowercase hash_order s now secs ingame).0
  unfolding reconcile_with_ingame
  reconcile_with_ingame-InSync s now secs ingame v =
      let allowed = count_ingame to_lowercase [] ingame in
      let (kept, counts) = keep_tracked to_lowercase allowed [] s.orders in
      let added =
        added_orders to_lowercase ingame secs (live_cancels now s.pending_cancels) counts
          (hash_order (collect_ingame to_lowercase [] ingame)) in
      let changes = ltb 0 (length s.orders - length kept) || ltb 0 (length added) in
      elim (Bool-cases changes) [
        | inl e ↦ rw e (save_orders-InSync _ v.costs_saved)
        | inr e ↦
            let none_removed : length s.orders - length kept ≡ 0 = ground arith in
            let none_added : length added ≡ 0 = ground arith in
            rw
              (
                e,
                nil_of_length added none_added,
                append-nil,
                keep_tracked_all to_lowercase allowed [] s.orders none_removed,
              )
              (record { orders_saved = v.orders_saved; costs_saved = v.costs_saved })
      ]

module _ (to_lowercase : Text → Text) (hash_order : IngameData → IngameData) (f : FloatOps) where
  -- The methods that change the tracker.
  pub data Step : BazaarOrderTracker → BazaarOrderTracker → Type 0 where
    marks_cancelling :
        (s : BazaarOrderTracker) (now : Instant) (n : Text) (b : Bool)
        → Step s (mark_cancelling to_lowercase s now n b)
    adds :
        (s : BazaarOrderTracker) (now : ℕ) (n : Text) (a : ℕ) (p : F64) (b : Bool)
        → Step s (add_order s now n a p b)
    marks_filled :
        (s : BazaarOrderTracker) (n : Text) (b : Bool) → Step s (mark_filled to_lowercase s n b)
    removes :
        (s : BazaarOrderTracker) (n : Text) (b : Bool) → Step s (remove_order to_lowercase s n b).0
    removes_stale :
        (s : BazaarOrderTracker) (now max_age : ℕ) → Step s (remove_stale_orders s now max_age).0
    clears :
        (s : BazaarOrderTracker) (now : Instant) → Step s (clear_all_orders to_lowercase s now).0
    reconciles :
        (s : BazaarOrderTracker) (now : Instant) (secs : ℕ) (ingame : List IngameOrder)
        → Step s (reconcile_with_ingame to_lowercase hash_order s now secs ingame).0
    records_cost :
        (s : BazaarOrderTracker) (n : Text) (p : F64) (a : ℕ)
        → Step s (record_buy_cost to_lowercase f s n p a)
    takes_cost : (s : BazaarOrderTracker) (n : Text) → Step s (take_buy_cost to_lowercase s n).0
    sets_profits :
        (s : BazaarOrderTracker) (items : List (Text × (ℤ × ℕ)))
        → Step s (set_bz_list_profits to_lowercase s items)

  -- Every method hands the writers what it changes.
  pub Step-InSync : {s t : BazaarOrderTracker} → Step s t → InSync s → InSync t
  unfolding mark_cancelling add_order mark_filled take_buy_cost record_buy_cost set_bz_list_profits
  Step-InSync (marks_cancelling s now n b) v = record {
    orders_saved = v.orders_saved;
    costs_saved = v.costs_saved;
  }
  Step-InSync (adds s now n a p b) v = ground arith
  Step-InSync (marks_filled s n b) v = ground arith
  Step-InSync (removes s n b) v = unfold remove_order in ground arith
  Step-InSync (removes_stale s now max_age) v = remove_stale_orders-InSync s now max_age v
  Step-InSync (clears s now) v = unfold clear_all_orders in save_orders-InSync _ v.costs_saved
  Step-InSync (reconciles s now secs ingame) v =
      reconcile_with_ingame-InSync to_lowercase hash_order s now secs ingame v
  Step-InSync (records_cost s n p a) v = ground arith
  Step-InSync (takes_cost s n) v = ground arith
  Step-InSync (sets_profits s items) v = record {
    orders_saved = v.orders_saved;
    costs_saved = v.costs_saved;
  }
