-- ===== src/Ownership/Lasting.antt =====
-- src/auction_ownership.rs: how long a listing is remembered.
use escrow.Common.{
  ℕ, ◌+◌, ◌-◌, ◌≤◌, ◌≡◌, refl, ◌∙◌, inl, inr, Bool, true, false, ◌&&◌, some, List, [], ◌∷◌, arith,
  leb, Bool-cases, Option-cases, length, length-append, length-retain-le, retain, any, any-append,
  text_keys, side_keys, nat_eq, Text, text_eq_refl, ℤ, int_eq_iff, is_positive,
}
use escrow.Ownership.{
  OwnAuction, ours, Stores, normalize_item_name, is_empty_text, matches, ownership_of, prune,
  update_first, is_listing, listing, recorded, note_own_listing, listing_ttl_secs, max_listings,
}
use escrow.Ownership.Updates.{length-update_first, any-update_first, any-retain_both, any_mono}
use escrow.Ownership.Listings.{
  is_recent, drop_none, prune-drop, listing-matches, note_own_listing-named,
}

-- A listing of this name and price that was recorded at `since` or later.
abbrev is_since : ℕ → Text → ℤ → OwnAuction → Bool
is_since since name price l = leb since l.recorded_at && is_listing name price l

any-update_mono {ℓ} :
    {A : Type ℓ} (p r : A → Bool) (f : A → A) (xs ys : List A)
    → update_first p f xs ≡ some ys
    → ((x : A) → r x ≡ true → r (f x) ≡ true)
    → any r xs ≡ true
    → any r ys ≡ true
any-update_mono p r f [] ys h g a = cc
any-update_mono p r f (x ∷ xs) ys h g a = elim (Option-cases (update_first p f xs)) [
  | inl e ↦ ground (arith, g x)
  | inr (zs, e) ↦ ground (arith, g x, any-update_mono p r f xs zs e g)
]

length-recorded-le :
    (ls : List OwnAuction) (now : ℕ) (name : Text) (price : ℤ)
    → length (recorded ls now name price) ≤ length ls + 1
unfolding recorded
length-recorded-le ls now name price =
    let f = λ (l : OwnAuction). record l { recorded_at = now } in
    elim (Option-cases (update_first (is_listing name price) f ls)) [
      | inl e ↦ rw (recorded, e) (omega (arith, length-append ls (listing name price now ∷ [])))
      | inr (ys, e) ↦
          rw (recorded, e) (omega (arith, length-update_first (is_listing name price) f ls ys e))
    ]

-- A new recording is there with its time.
since-recorded :
    (ls : List OwnAuction) (now : ℕ) (name : Text) (price : ℤ)
    → is_positive price ≡ true
    → any (is_since now name price) (recorded ls now name price) ≡ true
unfolding recorded
since-recorded ls now name price g =
    let f = λ (l : OwnAuction). record l { recorded_at = now } in
    let x = listing name price now in
    elim (Option-cases (update_first (is_listing name price) f ls)) [
      | inl e ↦
          rw (recorded, e)
            (any-append (is_since now name price) ls (x ∷ [])
              ∙ (ground (arith, text_eq_refl name, int_eq_iff price price)))
      | inr (ys, e) ↦
          rw (recorded, e)
            (any-update_first (is_listing name price) f (is_since now name price) ls ys e
              (λ l h. ground arith))
    ]

-- Recording another auction later leaves it there.
since-recorded_other :
    (ls : List OwnAuction) (since now : ℕ) (name other : Text) (price price' : ℤ)
    → since ≤ now
    → any (is_since since name price) ls ≡ true
    → any (is_since since name price) (recorded ls now other price') ≡ true
unfolding recorded
since-recorded_other ls since now name other price price' h a =
    let f = λ (l : OwnAuction). record l { recorded_at = now } in
    elim (Option-cases (update_first (is_listing other price') f ls)) [
      | inl e ↦
          rw (recorded, e)
            (any-append (is_since since name price) ls (listing other price' now ∷ [])
              ∙ (ground arith))
      | inr (ys, e) ↦
          rw (recorded, e)
            (any-update_mono (is_listing other price') (is_since since name price) f ls ys e
              (λ l k. ground arith) a)
    ]

-- So does the pruning within a week of it, while the history is within its bound.
since-prune :
    (ls : List OwnAuction) (since now : ℕ) (name : Text) (price : ℤ)
    → length ls ≤ max_listings
    → now ≤ since + listing_ttl_secs
    → any (is_since since name price) ls ≡ true
    → (any (is_since since name price) (prune now ls) ≡ true) × (length (prune now ls) ≤ length ls)
since-prune ls since now name price h w a =
    let r = is_since since name price in
    let kept = retain (is_recent now) ls in
    let short = length-retain-le (is_recent now) ls in
    rw (prune-drop now ls, drop_none (length kept - max_listings) kept (omega (arith, short)))
      (
        any-retain_both r (is_recent now) ls
            (any_mono r (λ l. is_recent now l && r l) ls (λ l k. ground (arith, k, w)) a),
        short,
      )

-- A recording: its time, the item's name and its price.
pub record Note : Type 0 where
  pub now : ℕ
  pub item_name : Text
  pub price : ℤ

abbrev pub note_all : List Note → Stores → Stores
note_all [] s = s
note_all (n ∷ ns) s = note_all ns (note_own_listing s n.now n.item_name n.price)

-- Each is made at `since` or later, within a week.
abbrev pub AllWithin : ℕ → List Note → Type 0
AllWithin since [] = Unit {0}
AllWithin since (n ∷ ns) = (since ≤ n.now) × (n.now ≤ since + listing_ttl_secs) × AllWithin since ns

since-note :
    (s : Stores) (n : Note) (since : ℕ) (name : Text) (price : ℤ)
    → length s.own_listings + 1 ≤ max_listings
    → since ≤ n.now
    → n.now ≤ since + listing_ttl_secs
    → any (is_since since name price) s.own_listings ≡ true
    → let s' = note_own_listing s n.now n.item_name n.price in
      (any (is_since since name price) s'.own_listings ≡ true)
      × (length s'.own_listings ≤ length s.own_listings + 1)
unfolding note_own_listing
since-note s n since name price h l w a =
    let other = normalize_item_name n.item_name in
    elim (Bool-cases (is_empty_text other)) [
      | inl e ↦ rw e (a, omega arith)
      | inr e ↦
          let size = length-recorded-le s.own_listings n.now other n.price in
          let (there, shorter) =
            since-prune (recorded s.own_listings n.now other n.price) since n.now name price
              (omega (arith, size)) w
              (since-recorded_other s.own_listings since n.now name other price n.price l a) in
          rw e (there, omega (arith, size, shorter))
    ]

since-note_all :
    (ns : List Note) (s : Stores) (since : ℕ) (name : Text) (price : ℤ)
    → length s.own_listings + length ns ≤ max_listings
    → AllWithin since ns
    → any (is_since since name price) s.own_listings ≡ true
    → any (is_since since name price) (note_all ns s).own_listings ≡ true
since-note_all [] s since name price h v a = a
since-note_all (n ∷ ns) s since name price h (l, w, v) a =
    let (there, size) = since-note s n since name price (omega arith) l w a in
    since-note_all ns (note_own_listing s n.now n.item_name n.price) since name price
      (omega (arith, size)) v there

found-ours :
    (s : Stores) (item_name : Text) (price : ℤ)
    → is_empty_text (normalize_item_name item_name) ≡ false
    → any (is_listing (normalize_item_name item_name) price) s.own_listings ≡ true
    → ownership_of s item_name (some price) ≡ ours
unfolding ownership_of
found-ours s item_name price e a =
    let name = normalize_item_name item_name in
    let found =
      any_mono (is_listing name price) (matches name (some price)) s.own_listings
        (listing-matches name price e) a in
    rw (e, found) refl

-- An auction that this account lists for a positive price stays its own for a week, whatever else it
-- lists: the slot that shows the name and the price is judged `ours` after any recordings that are
-- made within the week, while all of them together with the history before are two thousand at most.
-- The name must not be empty once normalised.
pub ownership_of-note_all :
    (s : Stores) (now : ℕ) (item_name : Text) (price : ℤ) (later : List Note)
    → is_positive price ≡ true
    → is_empty_text (normalize_item_name item_name) ≡ false
    → length s.own_listings + 1 + length later ≤ max_listings
    → AllWithin now later
    → ownership_of (note_all later (note_own_listing s now item_name price)) item_name (some price)
      ≡ ours
ownership_of-note_all s now item_name price later g e h v =
    let name = normalize_item_name item_name in
    let size = length-recorded-le s.own_listings now name price in
    let (there, shorter) =
      since-prune (recorded s.own_listings now name price) now now name price (omega (arith, size))
        (omega arith) (since-recorded s.own_listings now name price g) in
    let after = record s { own_listings = prune now (recorded s.own_listings now name price) } in
    let kept = since-note_all later after now name price (omega (arith, size, shorter)) v there in
    rw (note_own_listing-named s now item_name price e) (
      found-ours (note_all later after) item_name price e (
        any_mono (is_since now name price) (is_listing name price)
          (note_all later after).own_listings (λ l k. ground arith) kept))
