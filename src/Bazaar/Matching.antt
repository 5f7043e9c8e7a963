-- ===== src/Bazaar/Matching.antt =====
-- src/bazaar_tracker.rs: after `reconcile_with_ingame` the tracker agrees with the game's window,
-- but for the orders that are being cancelled.
use Prim.Native.Nat.{min}
use escrow.Common.{
  ℕ, ◌<◌, ◌≡◌, sym, ◌∙◌, inl, inr, Bool, true, ◌||◌, some, List, [], ◌∷◌, ◌++◌, arith, Text, ltb,
  if◌then◌else◌, any, is_some, Bool-cases, retain, lookup, insert, lookup-insert, side_eq,
  side_keys, side_eq_refl, side_eq_eq, count-append, DistinctKeys,
}
use escrow.Types.{Instant}
use escrow.Bazaar.{
  BazaarOrderTracker, OrderKey, key_of, normalize_for_match, mark_cancelling, elapsed_secs,
  cancel_suppress_secs,
}
use escrow.Bazaar.Reconcile.{
  IngameOrder, IngameData, data_of, ingame_key, count_ingame, collect_ingame, keep_tracked,
  added_orders, live_cancels, reconcile_with_ingame,
}
use escrow.Bazaar.Counts.{
  tracked_count, ingame_count, count_of-count_ingame, length-collect_ingame,
  collect_ingame-DistinctKeys, tracked_count-keep_tracked, Shown, tracked_count-added_orders,
}

-- Iterating a hash map visits each of its entries once, in some order.
pub record Iterates (hash_order : IngameData → IngameData) : Type 0 where
  pub distinct : (m : IngameData) → DistinctKeys m → DistinctKeys (hash_order m)
  pub same :
      (m : IngameData) → DistinctKeys m → (k : OrderKey) → lookup k (hash_order m) ≡ lookup k m

-- An entry that passes a test of its value is still found once the others are filtered away.
pub lookup-retain :
    (p : Instant → Bool) (k : OrderKey) (t : Instant) (m : List (OrderKey × Instant))
    → lookup k m ≡ some t
    → p t ≡ true
    → lookup k (retain (λ e. p e.1) m) ≡ some t
unfolding lookup
lookup-retain p k t [] h g = cc
lookup-retain p k t ((j, u) ∷ m) h g = elim (Bool-cases (side_eq j k)) [
  | inl e ↦ ground (arith, e)
  | inr e ↦ ground (arith, e, lookup-retain p k t m)
]

module _ (to_lowercase : Text → Text) where
  lookup-collect_ingame :
      (k : OrderKey) (m : IngameData) (xs : List IngameOrder)
      → is_some (lookup k (collect_ingame to_lowercase m xs))
        ≡ (is_some (lookup k m) || any (λ o. side_eq (ingame_key to_lowercase o) k) xs)
  unfolding collect_ingame
  lookup-collect_ingame k m [] = ground arith
  lookup-collect_ingame k m (x ∷ xs) =
      let j = ingame_key to_lowercase x in
      let d = data_of j m ++ (x.2, x.3) ∷ [] in
      lookup-collect_ingame k (insert j d m) xs ∙ (rw (lookup-insert j k d m) (ground arith))

  Shown-of :
      (ingame : List IngameOrder) (es : IngameData)
      → DistinctKeys es
      → ((k : OrderKey)
          → is_some (lookup k es) ≡ true
          → any (λ o. side_eq (ingame_key to_lowercase o) k) ingame ≡ true)
      → Shown to_lowercase ingame es
  Shown-of ingame [] d h = tt
  Shown-of ingame ((j, entries) ∷ es) d h = (
    h j (unfold lookup in rw (side_eq_refl j)),
    Shown-of ingame es d.1 λ k found. elim (Bool-cases (side_eq j k)) [
      | inl g ↦ cc (found, rw (side_eq_eq j k g) at d.0)
      | inr g ↦ h k (unfold lookup in rw g found)
    ],
  )

  module _ (hash_order : IngameData → IngameData) (iterates : Iterates hash_order) where
    iterated-Shown :
        (ingame : List IngameOrder)
        → Shown to_lowercase ingame (hash_order (collect_ingame to_lowercase [] ingame))
    unfolding lookup
    iterated-Shown ingame =
        let m = collect_ingame to_lowercase [] ingame in
        let d = collect_ingame-DistinctKeys to_lowercase [] ingame tt in
        Shown-of ingame (hash_order m) (iterates.distinct m d)
          λ k found. sym (lookup-collect_ingame k [] ingame) ∙ (rw (iterates.same m d k) at found)

    reconciled-orders :
        (s : BazaarOrderTracker) (now : Instant) (now_secs : ℕ) (ingame : List IngameOrder)
        → let (kept, counts) =
            keep_tracked to_lowercase (count_ingame to_lowercase [] ingame) [] s.orders in
          (reconcile_with_ingame to_lowercase hash_order s now now_secs ingame).0.orders
          ≡ kept
            ++ added_orders to_lowercase ingame now_secs
                (live_cancels now s.pending_cancels)
                counts
                (hash_order (collect_ingame to_lowercase [] ingame))
    unfolding reconcile_with_ingame
    reconciled-orders s now now_secs ingame = ground arith

    -- For every item and side: where no cancel of the last thirty seconds speaks of it, the tracker
    -- has as many orders afterwards as the window shows; where one does, it has as many as it had,
    -- up to the number that the window shows.
    pub tracked_count-reconcile_with_ingame :
        (s : BazaarOrderTracker) (now : Instant) (now_secs : ℕ) (ingame : List IngameOrder)
        (k : OrderKey)
        → let s' = (reconcile_with_ingame to_lowercase hash_order s now now_secs ingame).0 in
          tracked_count to_lowercase k s'.orders ≡ (
            if is_some (lookup k (live_cancels now s.pending_cancels))
            then min (tracked_count to_lowercase k s.orders) (ingame_count to_lowercase k ingame)
            else ingame_count to_lowercase k ingame)
    unfolding lookup
    tracked_count-reconcile_with_ingame s now now_secs ingame k =
        let allowed = count_ingame to_lowercase [] ingame in
        let (kept, counts) = keep_tracked to_lowercase allowed [] s.orders in
        let m = collect_ingame to_lowercase [] ingame in
        let d = collect_ingame-DistinctKeys to_lowercase [] ingame tt in
        let cancels = live_cancels now s.pending_cancels in
        rw (reconciled-orders s now now_secs ingame) (
          count-append (λ o. side_eq (key_of to_lowercase o) k) kept _
          ∙ (ground (
            arith,
            tracked_count-keep_tracked to_lowercase k allowed [] s.orders,
            count_of-count_ingame to_lowercase k [] ingame,
            length-collect_ingame to_lowercase k [] ingame,
            iterates.same m d k,
            tracked_count-added_orders to_lowercase k ingame now_secs cancels counts (hash_order m)
                (iterated-Shown ingame) (iterates.distinct m d),
          )))

    -- In the thirty seconds after an order is marked as being cancelled, a reconciliation adds no
    -- order of its item and side: those that were tracked stay, up to the number that the window
    -- shows.
    pub reconcile_with_ingame-mark_cancelling :
        (s : BazaarOrderTracker) (marked now : Instant) (now_secs : ℕ) (ingame : List IngameOrder)
        (item_name : Text) (is_buy_order : Bool)
        → elapsed_secs now marked < cancel_suppress_secs
        → let s' = mark_cancelling to_lowercase s marked item_name is_buy_order in
          let k : OrderKey = (normalize_for_match to_lowercase item_name, is_buy_order) in
          tracked_count to_lowercase k
            (reconcile_with_ingame to_lowercase hash_order s' now now_secs ingame).0.orders
          ≡ min (tracked_count to_lowercase k s.orders) (ingame_count to_lowercase k ingame)
    unfolding mark_cancelling live_cancels
    reconcile_with_ingame-mark_cancelling s marked now now_secs ingame item_name is_buy_order h =
        let k : OrderKey = (normalize_for_match to_lowercase item_name, is_buy_order) in
        let s' = mark_cancelling to_lowercase s marked item_name is_buy_order in
        let found =
          lookup-retain (λ t. ltb (elapsed_secs now t) cancel_suppress_secs) k marked
            (insert k marked s.pending_cancels)
            (lookup-insert k k marked s.pending_cancels ∙ (rw (side_eq_refl k))) (ground arith) in
        tracked_count-reconcile_with_ingame s' now now_secs ingame k ∙ (rw found)
