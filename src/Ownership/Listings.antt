-- ===== src/Ownership/Listings.antt =====
-- src/auction_ownership.rs: the history of the account's own listings.
use escrow.Common.{
  ℕ, zero, suc, ◌+◌, ◌-◌, ◌≤◌, ◌≡◌, refl, sym, ap, ◌∙◌, inl, inr, Bool, true, false, ◌&&◌, some,
  List, [], ◌∷◌, ◌++◌, arith, ltb, leb, if◌then◌else◌, Bool-cases, Option-cases, length, drop,
  length-append, length-drop, retain, any, retain-append, length-retain-le, any-append, text_keys,
  side_keys, nat_eq, Text, text_eq_refl, text_eq_eq, ℤ, int_eq_iff, is_positive,
}
use escrow.Ownership.{
  OwnAuction, ours, Stores, normalize_item_name, is_empty_text, matches, ownership_of, prune,
  update_first, is_listing, listing, recorded, note_own_listing, listing_ttl_secs, max_listings,
}
use escrow.Ownership.Names.{names_match_comm}
use escrow.Ownership.Updates.{
  length-update_first, any-update_first, update_first-none, any_last, any-retain_both, any_mono,
}

-- The history has at most two thousand listings, none of them older than a week.
abbrev pub IsPruned : ℕ → List OwnAuction → Type 0
IsPruned now listings =
    (length listings ≤ max_listings)
    × (any (λ l. ltb (l.recorded_at + listing_ttl_secs) now) listings ≡ false)

abbrev pub is_recent : ℕ → OwnAuction → Bool
is_recent now l = leb (now - listing_ttl_secs) l.recorded_at

no_old :
    (now : ℕ) (ls : List OwnAuction)
    → any (λ l. ltb (l.recorded_at + listing_ttl_secs) now) (retain (is_recent now) ls) ≡ false
no_old now [] = refl
no_old now (l ∷ ls) = ground (arith, no_old now ls)

no_old-drop :
    (now n : ℕ) (ls : List OwnAuction)
    → any (λ l. ltb (l.recorded_at + listing_ttl_secs) now) ls ≡ false
    → any (λ l. ltb (l.recorded_at + listing_ttl_secs) now) (drop n ls) ≡ false
no_old-drop now zero ls h = h
no_old-drop now (suc n) [] h = refl
no_old-drop now (suc n) (l ∷ ls) h = no_old-drop now n ls (ground arith)

prune-IsPruned : (now : ℕ) (ls : List OwnAuction) → IsPruned now (prune now ls)
unfolding prune
prune-IsPruned now ls =
    let kept = retain (is_recent now) ls in
    elim (Bool-cases (ltb max_listings (length kept))) [
      | inl e ↦ rw e (
        omega (arith, length-drop (length kept - max_listings) kept),
        no_old-drop now (length kept - max_listings) kept (no_old now ls),
      )
      | inr e ↦ rw e (ground arith, no_old now ls)
    ]

-- A listing that has this name and price and the present time.
abbrev is_fresh_listing : Text → ℤ → ℕ → OwnAuction → Bool
is_fresh_listing name price now l = is_recent now l && is_listing name price l

pub drop_none {ℓ} : {A : Type ℓ} (n : ℕ) (xs : List A) → n ≡ 0 → drop n xs ≡ xs
drop_none zero xs h = refl
drop_none (suc n) xs h = absurd (omega arith)

pub prune-drop :
    (now : ℕ) (ls : List OwnAuction)
    → let kept = retain (is_recent now) ls in prune now ls ≡ drop (length kept - max_listings) kept
unfolding prune
prune-drop now ls =
    let kept = retain (is_recent now) ls in
    elim (Bool-cases (ltb max_listings (length kept))) [
      | inl e ↦ rw e
      | inr e ↦ rw e (sym (drop_none (length kept - max_listings) kept (ground arith)))
    ]

-- A listing that is refreshed stays, where the history was within its bound.
refreshed_stays :
    (ls ys : List OwnAuction) (now : ℕ) (name : Text) (price : ℤ)
    → length ls ≤ max_listings
    → update_first (is_listing name price) (λ l. record l { recorded_at = now }) ls ≡ some ys
    → any (is_listing name price) (prune now ys) ≡ true
refreshed_stays ls ys now name price h e =
    let f = λ (l : OwnAuction). record l { recorded_at = now } in
    let kept = retain (is_recent now) ys in
    rw
      (
        prune-drop now ys,
        drop_none (length kept - max_listings) kept (
            omega (
              arith,
              length-retain-le (is_recent now) ys,
              length-update_first (is_listing name price) f ls ys e,
            )),
      )
      (any-retain_both (is_listing name price) (is_recent now) ys (
        any-update_first (is_listing name price) f (is_fresh_listing name price now) ls ys e
          (λ x g. ground arith)))

-- So does a new one.
appended_stays :
    (ls : List OwnAuction) (now : ℕ) (name : Text) (price : ℤ)
    → length ls ≤ max_listings
    → is_positive price ≡ true
    → any (is_listing name price) (prune now (ls ++ listing name price now ∷ [])) ≡ true
appended_stays ls now name price h g =
    let x = listing name price now in
    let kept = retain (is_recent now) ls in
    let last : retain (is_recent now) (ls ++ x ∷ []) ≡ kept ++ x ∷ [] =
      retain-append (is_recent now) ls (x ∷ []) ∙ (ground arith) in
    rw (prune-drop now (ls ++ x ∷ []), last, length-append kept (x ∷ []))
      (any_last (is_listing name price) (length kept + 1 - max_listings) kept x
        (omega (arith, length-retain-le (is_recent now) ls))
        (ground (arith, text_eq_refl name, int_eq_iff price price)))

fresh_in_pruned :
    (ls : List OwnAuction) (now : ℕ) (name : Text) (price : ℤ)
    → length ls ≤ max_listings
    → is_positive price ≡ true
    → any (is_listing name price) (prune now (recorded ls now name price)) ≡ true
unfolding recorded prune
fresh_in_pruned ls now name price h g =
    elim (Option-cases
      (update_first (is_listing name price) (λ l. record l { recorded_at = now }) ls)) [
        | inl e ↦ rw (recorded, e) (appended_stays ls now name price h g)
        | inr (ys, e) ↦ rw (recorded, e) (refreshed_stays ls ys now name price h e)
      ]

pub listing-matches :
    (name : Text) (price : ℤ)
    → is_empty_text name ≡ false
    → (l : OwnAuction) → is_listing name price l ≡ true
    → matches name (some price) l ≡ true
unfolding matches
listing-matches name price n l h =
    let same = text_eq_eq l.name name (ground arith) in
    rw (same, (names_match_comm name name).1, n) (ground arith)

-- Right after this account has listed an auction for a positive price, the slot that shows the name
-- and the price is judged `ours`, and the history is within its bound with nothing in it that is older
-- than a week. The history must have been within its bound, and the name not be empty once normalised.
pub ownership_of-note_own_listing :
    (s : Stores) (now : ℕ) (item_name : Text) (price : ℤ)
    → length s.own_listings ≤ max_listings
    → is_positive price ≡ true
    → is_empty_text (normalize_item_name item_name) ≡ false
    → let s' = note_own_listing s now item_name price in
      (ownership_of s' item_name (some price) ≡ ours) × IsPruned now s'.own_listings
unfolding note_own_listing ownership_of
ownership_of-note_own_listing s now item_name price h g n =
    let name = normalize_item_name item_name in
    let ls = prune now (recorded s.own_listings now name price) in
    let found =
      any_mono (is_listing name price) (matches name (some price)) ls (listing-matches name price n)
        (fresh_in_pruned s.own_listings now name price h g) in
    (rw (n, found), rw n (prune-IsPruned now (recorded s.own_listings now name price)))

-- A name that is not empty once normalised is recorded.
pub note_own_listing-named :
    (s : Stores) (now : ℕ) (item_name : Text) (price : ℤ)
    → is_empty_text (normalize_item_name item_name) ≡ false
    → note_own_listing s now item_name price ≡ record s {
      own_listings = prune now (recorded s.own_listings now (normalize_item_name item_name) price);
    }
unfolding note_own_listing
note_own_listing-named s now item_name price e = rw e refl

-- Listing the same item several times, at one time.
abbrev pub relisted : ℕ → Stores → ℕ → Text → ℤ → Stores
relisted zero s now item_name price = s
relisted (suc n) s now item_name price =
    relisted n (note_own_listing s now item_name price) now item_name price

recorded_unpriced :
    (ls : List OwnAuction) (now : ℕ) (name : Text) (price : ℤ)
    → any (is_listing name price) ls ≡ false
    → recorded ls now name price ≡ ls ++ listing name price now ∷ []
unfolding recorded
recorded_unpriced ls now name price g =
    rw (update_first-none (is_listing name price) (λ l. record l { recorded_at = now }) ls g) refl

retain_recent :
    (now : ℕ) (ls : List OwnAuction)
    → any (λ l. ltb (l.recorded_at + listing_ttl_secs) now) ls ≡ false
    → retain (is_recent now) ls ≡ ls
retain_recent now [] h = refl
retain_recent now (l ∷ ls) h = ground (arith, retain_recent now ls)

any-drop-false {ℓ} :
    {A : Type ℓ} (p : A → Bool) (n : ℕ) (xs : List A) → any p xs ≡ false → any p (drop n xs) ≡ false
any-drop-false p zero xs h = h
any-drop-false p (suc n) [] h = refl
any-drop-false p (suc n) (x ∷ xs) h = any-drop-false p n xs (ground arith)

-- The sum, two thousand at most.
abbrev pub up_to_bound : ℕ → ℕ → ℕ
up_to_bound m n = if ltb max_listings (m + n) then max_listings else m + n

up_to_bound-suc :
    (m n : ℕ) → m ≤ max_listings → up_to_bound (up_to_bound m 1) n ≡ up_to_bound m (suc n)
up_to_bound-suc m n h = ground arith

-- An unpriced listing that is added to a history that has none of this name and price.
relisted_once :
    (ls : List OwnAuction) (now : ℕ) (name : Text) (price : ℤ)
    → is_positive price ≡ false
    → IsPruned now ls
    → any (is_listing name price) ls ≡ false
    → let after = prune now (recorded ls now name price) in
      (any (is_listing name price) after ≡ false) × (length after ≡ up_to_bound (length ls) 1)
relisted_once ls now name price u (b, r) g =
    let x = listing name price now in
    let more = ls ++ x ∷ [] in
    let old = λ (l : OwnAuction). ltb (l.recorded_at + listing_ttl_secs) now in
    let fresh : any old more ≡ false = any-append old ls (x ∷ []) ∙ (ground arith) in
    let absent : any (is_listing name price) more ≡ false =
      any-append (is_listing name price) ls (x ∷ []) ∙ (ground arith) in
    let n = length more - max_listings in
    let size : length more ≡ length ls + 1 = length-append ls (x ∷ []) in
    rw (recorded_unpriced ls now name price g, prune-drop now more, retain_recent now more fresh)
      (
        any-drop-false (is_listing name price) n more absent,
        ground (arith, length-drop n more, size),
      )

-- A price that is not positive is not stored, so its listing is never found again: each relisting of
-- the item, all at one time at which none of the history is older than a week, adds one more listing
-- until the history has two thousand of them. The name must not be empty once normalised.
pub length-relisted :
    (n : ℕ) (s : Stores) (now : ℕ) (item_name : Text) (price : ℤ)
    → is_positive price ≡ false
    → is_empty_text (normalize_item_name item_name) ≡ false
    → IsPruned now s.own_listings
    → any (is_listing (normalize_item_name item_name) price) s.own_listings ≡ false
    → length (relisted n s now item_name price).own_listings ≡ up_to_bound (length s.own_listings) n
length-relisted zero s now item_name price h e v g = ground arith
length-relisted (suc n) s now item_name price h e v g =
    let name = normalize_item_name item_name in
    let after = prune now (recorded s.own_listings now name price) in
    let (absent, size) = relisted_once s.own_listings now name price h v g in
    ap (λ r. length (relisted n r now item_name price).own_listings)
      (note_own_listing-named s now item_name price e)
    ∙ length-relisted n (record s { own_listings = after }) now item_name price h e
        (prune-IsPruned now (recorded s.own_listings now name price)) absent
    ∙ ap (λ m. up_to_bound m n) size
    ∙ up_to_bound-suc (length s.own_listings) n v.0
