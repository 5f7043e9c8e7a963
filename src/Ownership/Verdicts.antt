-- ===== src/Ownership/Verdicts.antt =====
-- src/auction_ownership.rs: what stands behind each verdict of `ownership_of`.
use escrow.Common.{
  ◌<◌, ◌≡◌, refl, sym, ◌∙◌, ◌⊎◌, inl, inr, Bool, true, false, not, ◌||◌, Option, none, some, List,
  [], ◌∷◌, ◌++◌, arith, ◌==◌, Bool-cases, length, nil_of_length, any, any-append, text_keys,
  side_keys, nat_eq, Text, ℤ, int_eq, int_eq_iff,
}
use mathlib.Core.List.{Memᴰ}
use escrow.Ownership.SameName.{SameName, names_match-SameName, SameName-names_match}
use escrow.Ownership.{
  OwnAuction, Ownership, ours, foreign, unknown, Stores, names_match, normalize_item_name,
  is_empty_text, has_price, matches, ownership_of,
}

-- When a slot's price, which may be unread, agrees with the prices of an auction.
pub data PriceFits : Option ℤ → List ℤ → Type 0 where
  unread : (ps : List ℤ) → PriceFits none ps
  unpriced : (p : ℤ) → PriceFits (some p) []
  shown : (p : ℤ) (ps : List ℤ) → Memᴰ p ps → PriceFits (some p) ps

-- When a slot's price and the prices of an auction are both known and differ.
pub data PriceDiffers : Option ℤ → List ℤ → Type 0 where
  not_shown : (p q : ℤ) (qs : List ℤ) → ¬ Memᴰ p (q ∷ qs) → PriceDiffers (some p) (q ∷ qs)

-- Why an auction is not the slot's: it has another name, or another price.
abbrev pub IsOther : Text → Option ℤ → OwnAuction → Type 0
IsOther name price a = ¬ SameName a.name name ⊎ PriceDiffers price a.prices

-- The ground for a verdict on a slot: an auction of the same name and price; data, of which each
-- auction has another name or price; or no name, or no data.
pub data Justified (s : Stores) (item_name : Text) (price : Option ℤ) : Ownership → Type 0 where
  listed :
      (a : OwnAuction)
      → Memᴰ a (s.own_listings ++ s.remote_auctions)
      → SameName a.name (normalize_item_name item_name)
      → PriceFits price a.prices
      → Justified s item_name price ours
  not_listed :
      ((a : OwnAuction)
        → Memᴰ a (s.own_listings ++ s.remote_auctions)
        → IsOther (normalize_item_name item_name) price a)
      → (0 < length s.own_listings) ⊎ (s.remote_fetched ≡ true)
      → Justified s item_name price foreign
  no_name : normalize_item_name item_name ≡ [] → Justified s item_name price unknown
  no_data : s.own_listings ≡ [] → s.remote_fetched ≡ false → Justified s item_name price unknown

any-Memᴰ {ℓ} :
    {A : Type ℓ} (p : A → Bool) (xs : List A) → any p xs ≡ true → (a : A) × Memᴰ a xs × (p a ≡ true)
any-Memᴰ p [] h = cc
any-Memᴰ p (x ∷ xs) h = elim (Bool-cases (p x)) [
  | inl e ↦ (x, Memᴰ.head refl, e)
  | inr e ↦ let (a, m, g) = any-Memᴰ p xs (ground arith) in (a, Memᴰ.tail m, g)
]

has_price-Memᴰ : (p : ℤ) (ps : List ℤ) → has_price p ps ≡ true → Memᴰ p ps
has_price-Memᴰ p [] h = cc
has_price-Memᴰ p (q ∷ qs) h = elim (Bool-cases (int_eq q p)) [
  | inl e ↦ Memᴰ.head (sym ((int_eq_iff q p).0 e))
  | inr e ↦ Memᴰ.tail (has_price-Memᴰ p qs (ground arith))
]

fits_known :
    (p : ℤ) (ps : List ℤ) → (length ps == 0 || has_price p ps) ≡ true → PriceFits (some p) ps
fits_known p [] h = unpriced p
fits_known p (q ∷ qs) h = shown p (q ∷ qs) (has_price-Memᴰ p (q ∷ qs) (ground arith))

matches-PriceFits :
    (name : Text) (price : Option ℤ) (a : OwnAuction)
    → matches name price a ≡ true
    → (names_match a.name name ≡ true) × PriceFits price a.prices
unfolding matches
matches-PriceFits name none a h = (h, unread a.prices)
matches-PriceFits name (some p) a h = (ground arith, fits_known p a.prices (ground arith))

Memᴰ-has_price : (p : ℤ) (ps : List ℤ) → Memᴰ p ps → has_price p ps ≡ true
Memᴰ-has_price p [] m = elim m [ ]
Memᴰ-has_price p (q ∷ qs) (Memᴰ.head e) = ground (arith, (int_eq_iff q p).1 (sym e))
Memᴰ-has_price p (q ∷ qs) (Memᴰ.tail m) = ground (arith, Memᴰ-has_price p qs m)

differs_known :
    (p : ℤ) (ps : List ℤ) → (length ps == 0 || has_price p ps) ≡ false → PriceDiffers (some p) ps
differs_known p [] h = cc h
differs_known p (q ∷ qs) h =
    let absent : has_price p (q ∷ qs) ≡ false = ground arith in
    not_shown p q qs (λ m. absurd (cc (Memᴰ-has_price p (q ∷ qs) m, absent)))

names_match-other : (a b : Text) → names_match a b ≡ false → ¬ SameName a b
names_match-other a b h s = absurd (cc (h, SameName-names_match a b s))

matches-IsOther :
    (name : Text) (price : Option ℤ) (a : OwnAuction)
    → matches name price a ≡ false
    → IsOther name price a
unfolding matches
matches-IsOther name none a h = inl (names_match-other a.name name h)
matches-IsOther name (some p) a h = elim (Bool-cases (names_match a.name name)) [
  | inl e ↦ inr (differs_known p a.prices (ground arith))
  | inr e ↦ inl (names_match-other a.name name e)
]

any-IsOther :
    (name : Text) (price : Option ℤ) (xs : List OwnAuction)
    → any (matches name price) xs ≡ false
    → (a : OwnAuction) → Memᴰ a xs
    → IsOther name price a
any-IsOther name price [] h a m = elim m [ ]
any-IsOther name price (x ∷ xs) h a (Memᴰ.head e) =
    matches-IsOther name price a (rw e (ground arith))
any-IsOther name price (x ∷ xs) h a (Memᴰ.tail m) = any-IsOther name price xs (ground arith) a m

nil_of_empty : (t : Text) → is_empty_text t ≡ true → t ≡ []
nil_of_empty [] h = refl
nil_of_empty (c ∷ cs) h = cc

-- Every verdict of `ownership_of` is justified: `ours` by an auction of the same name whose price is the
-- slot's, unless the slot's could not be read or none is known of the auction; `foreign` by ownership
-- data in which every auction has another name, or has prices of which none is the slot's, which could
-- be read; `unknown` by a slot with no name or by the lack of data. Two names that are not empty are the
-- same if they are equal, or if one of four bytes or more stands within the other.
pub ownership_of-Justified :
    (s : Stores) (item_name : Text) (price : Option ℤ)
    → Justified s item_name price (ownership_of s item_name price)
unfolding ownership_of
ownership_of-Justified s item_name price =
    let name = normalize_item_name item_name in
    let speaks = matches name price in
    let together = any-append speaks s.own_listings s.remote_auctions in
    elim (Bool-cases (is_empty_text name)) [
      | inl e ↦ rw e (no_name (nil_of_empty name e))
      | inr n ↦ elim (Bool-cases (any speaks s.own_listings || any speaks s.remote_auctions)) [
        | inl e ↦
            let (a, m, g) = any-Memᴰ speaks (s.own_listings ++ s.remote_auctions) (together ∙ e) in
            let (same, fits) = matches-PriceFits name price a g in
            rw (n, e) (listed a m (names_match-SameName a.name name same) fits)
        | inr e ↦ elim (Bool-cases (not (length s.own_listings == 0) || s.remote_fetched)) [
          | inl d ↦
              rw (n, e, d)
                (not_listed
                  (any-IsOther name price (s.own_listings ++ s.remote_auctions) (together ∙ e))
                  (ground arith))
          | inr d ↦
              rw (n, e, d) (no_data (nil_of_length s.own_listings (ground arith)) (ground arith))
        ]
      ]
    ]
