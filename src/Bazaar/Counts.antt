-- ===== src/Bazaar/Counts.antt =====
-- src/bazaar_tracker.rs, `reconcile_with_ingame`: how many orders of one item and side its maps and
-- loops count, keep and add.
use Prim.Native.Nat.{min}
use escrow.Common.{
  ℕ, suc, ◌+◌, ◌-◌, ◌≡◌, ap, ◌∙◌, inl, inr, true, false, List, [], ◌∷◌, ◌++◌, arith, Text, ltb,
  if◌then◌else◌, length, count, any, find, drop, is_some, Bool-cases, Option-cases, lookup, insert,
  lookup-insert, side_eq, side_keys, side_eq_eq, length-append, count-append, length-drop,
  DistinctKeys, find-some, find-any, insert-DistinctKeys,
}
use escrow.Types.{F64, Instant}
use escrow.Bazaar.{TrackedBazaarOrder, OrderKey, key_of, normalize_for_match}
use escrow.Bazaar.Reconcile.{
  IngameOrder, Counts, DataEntries, IngameData, count_of, data_of, bump, ingame_key, count_ingame,
  collect_ingame, keep_tracked, new_orders, added_orders, display_name_of,
}

count_of-bump :
    (j k : OrderKey) (m : Counts)
    → count_of k (bump j m) ≡ count_of k m + (if side_eq j k then 1 else 0)
count_of-bump j k m = elim (Bool-cases (side_eq j k)) [
  | inl e ↦ rw (lookup-insert j k (suc (count_of j m)) m, e, side_eq_eq j k e) (omega arith)
  | inr e ↦ rw (lookup-insert j k (suc (count_of j m)) m, e) (omega arith)
]

data_of_self :
    (k j : OrderKey) (entries : DataEntries) (es : IngameData)
    → side_eq j k ≡ true
    → data_of k ((j, entries) ∷ es) ≡ entries
unfolding lookup
data_of_self k j entries es g = rw g

data_of_other :
    (k j : OrderKey) (entries : DataEntries) (es : IngameData)
    → side_eq j k ≡ false
    → data_of k ((j, entries) ∷ es) ≡ data_of k es
unfolding lookup
data_of_other k j entries es g = rw g

module _ (to_lowercase : Text → Text) where
  abbrev pub tracked_count : OrderKey → List TrackedBazaarOrder → ℕ
  tracked_count k = count (λ o. side_eq (key_of to_lowercase o) k)

  abbrev pub ingame_count : OrderKey → List IngameOrder → ℕ
  ingame_count k = count (λ o. side_eq (ingame_key to_lowercase o) k)

  pub count_of-count_ingame :
      (k : OrderKey) (m : Counts) (xs : List IngameOrder)
      → count_of k (count_ingame to_lowercase m xs) ≡ count_of k m + ingame_count k xs
  unfolding count_ingame
  count_of-count_ingame k m [] = omega arith
  count_of-count_ingame k m (x ∷ xs) = ground (
    arith,
    count_of-count_ingame k (bump (ingame_key to_lowercase x) m) xs,
    count_of-bump (ingame_key to_lowercase x) k m,
  )

  length-data_of :
      (j k : OrderKey) (d : ℕ × F64) (m : IngameData)
      → length (data_of k (insert j (data_of j m ++ d ∷ []) m))
        ≡ length (data_of k m) + (if side_eq j k then 1 else 0)
  length-data_of j k d m = elim (Bool-cases (side_eq j k)) [
    | inl e ↦
        rw (lookup-insert j k (data_of j m ++ d ∷ []) m, e, side_eq_eq j k e)
          (omega (arith, length-append (data_of k m) (d ∷ [])))
    | inr e ↦ rw (lookup-insert j k (data_of j m ++ d ∷ []) m, e) (omega arith)
  ]

  pub length-collect_ingame :
      (k : OrderKey) (m : IngameData) (xs : List IngameOrder)
      → length (data_of k (collect_ingame to_lowercase m xs))
        ≡ length (data_of k m) + ingame_count k xs
  unfolding collect_ingame
  length-collect_ingame k m [] = omega arith
  length-collect_ingame k m (x ∷ xs) =
      let j = ingame_key to_lowercase x in
      ground (
        arith,
        length-collect_ingame k (insert j (data_of j m ++ (x.2, x.3) ∷ []) m) xs,
        length-data_of j k (x.2, x.3) m,
      )

  pub collect_ingame-DistinctKeys :
      (m : IngameData) (xs : List IngameOrder)
      → DistinctKeys m
      → DistinctKeys (collect_ingame to_lowercase m xs)
  unfolding collect_ingame
  collect_ingame-DistinctKeys m [] d = d
  collect_ingame-DistinctKeys m (x ∷ xs) d =
      let j = ingame_key to_lowercase x in
      collect_ingame-DistinctKeys (insert j (data_of j m ++ (x.2, x.3) ∷ []) m) xs
        (insert-DistinctKeys j (data_of j m ++ (x.2, x.3) ∷ []) m d)

  -- The retaining loop keeps as many orders of a key as are allowed beyond those already counted,
  -- and its counts say how many it kept.
  pub tracked_count-keep_tracked :
      (k : OrderKey) (allowed kept : Counts) (os : List TrackedBazaarOrder)
      → let r = keep_tracked to_lowercase allowed kept os in
        (tracked_count k r.0 ≡ min (tracked_count k os) (count_of k allowed - count_of k kept))
        × (count_of k r.1 ≡ count_of k kept + tracked_count k r.0)
  unfolding keep_tracked
  tracked_count-keep_tracked k allowed kept [] = (omega arith, omega arith)
  tracked_count-keep_tracked k allowed kept (o ∷ os) =
      let j = key_of to_lowercase o in
      elim (Bool-cases (ltb (count_of j kept) (count_of j allowed))) [
        | inl e ↦
            let ih = tracked_count-keep_tracked k allowed (bump j kept) os in
            elim (Bool-cases (side_eq j k)) [
              | inl g ↦
                  let room = rw (side_eq_eq j k g) at e in
                  rw (e, g) (ground (arith, ih, count_of-bump j k kept, room))
              | inr g ↦ rw (e, g) (ground (arith, ih, count_of-bump j k kept))
            ]
        | inr e ↦
            let ih = tracked_count-keep_tracked k allowed kept os in
            elim (Bool-cases (side_eq j k)) [
              | inl g ↦
                  let full = rw (side_eq_eq j k g) at e in rw (e, g) (ground (arith, ih, full))
              | inr g ↦ rw (e, g) ih
            ]
      ]

  -- A key that the window shows has a name there that normalises to it.
  key_of-display_name_of :
      (ingame : List IngameOrder) (k : OrderKey)
      → any (λ o. side_eq (ingame_key to_lowercase o) k) ingame ≡ true
      → normalize_for_match to_lowercase (display_name_of to_lowercase ingame k) ≡ k.0
  unfolding display_name_of
  key_of-display_name_of ingame k h =
      elim (Option-cases (find (λ o. side_eq (ingame_key to_lowercase o) k) ingame)) [
        | inl e ↦ cc (find-any (λ o. side_eq (ingame_key to_lowercase o) k) ingame e)
        | inr (o, e) ↦
            rw (e, display_name_of)
              (ap (λ (x : OrderKey). x.0)
                (side_eq_eq (ingame_key to_lowercase o) k
                  (find-some (λ o. side_eq (ingame_key to_lowercase o) k) ingame o e)))
      ]

  tracked_count-new_orders :
      (k j : OrderKey) (ingame : List IngameOrder) (now : ℕ) (entries : DataEntries)
      → any (λ o. side_eq (ingame_key to_lowercase o) j) ingame ≡ true
      → tracked_count k (new_orders to_lowercase ingame now j entries)
        ≡ (if side_eq j k then length entries else 0)
  unfolding new_orders
  tracked_count-new_orders k j ingame now [] h = ground arith
  tracked_count-new_orders k j ingame now ((a, p) ∷ es) h =
      rw (key_of-display_name_of ingame j h)
        (ground (arith, tracked_count-new_orders k j ingame now es h))

  -- Each key of the data is that of an order in the window.
  abbrev pub Shown : List IngameOrder → IngameData → Type 0
  Shown ingame [] = Unit {0}
  Shown ingame ((k, d) ∷ es) =
      (any (λ o. side_eq (ingame_key to_lowercase o) k) ingame ≡ true) × Shown ingame es

  -- The adding loop makes up what a key lacks, unless it is suppressed.
  pub tracked_count-added_orders :
      (k : OrderKey) (ingame : List IngameOrder) (now : ℕ) (suppressed : List (OrderKey × Instant))
      (kept : Counts) (es : IngameData)
      → Shown ingame es
      → DistinctKeys es
      → tracked_count k (added_orders to_lowercase ingame now suppressed kept es)
        ≡ (if is_some (lookup k suppressed) then 0 else length (data_of k es) - count_of k kept)
  unfolding added_orders
  tracked_count-added_orders k ingame now suppressed kept [] h d = unfold lookup in ground arith
  tracked_count-added_orders k ingame now suppressed kept ((j, entries) ∷ es) h d =
      elim (Bool-cases (is_some (lookup j suppressed))) [
        | inl skip ↦
            let ih = tracked_count-added_orders k ingame now suppressed kept es h.1 d.1 in
            elim (Bool-cases (side_eq j k)) [
              | inl g ↦
                  let skip' = rw (side_eq_eq j k g) at skip in rw (skip, skip') (ih ∙ rw skip')
              | inr g ↦ rw (skip, data_of_other k j entries es g) ih
            ]
        | inr serve ↦
            let ih =
              tracked_count-added_orders k ingame now suppressed (insert j (length entries) kept) es
                h.1 d.1 in
            let new = drop (count_of j kept) entries in
            rw serve (
              count-append (λ o. side_eq (key_of to_lowercase o) k)
                (new_orders to_lowercase ingame now j new) _
              ∙ (elim (Bool-cases (side_eq j k)) [
                | inl g ↦
                    let here = rw (side_eq_eq j k g) at serve in
                    let gone = rw (side_eq_eq j k g) at d.0 in
                    let same = ap (λ x. count_of x kept) (side_eq_eq j k g) in
                    rw
                      (
                        tracked_count-new_orders k j ingame now new h.0,
                        g,
                        ih,
                        here,
                        gone,
                        data_of_self k j entries es g,
                      )
                      (omega (arith, length-drop (count_of j kept) entries, same))
                | inr g ↦
                    rw
                      (
                        tracked_count-new_orders k j ingame now new h.0,
                        g,
                        ih,
                        lookup-insert j k (length entries) kept,
                        g,
                        data_of_other k j entries es g,
                      )
                      (omega arith)
              ]))
      ]
