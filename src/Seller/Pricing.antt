-- ===== src/Seller/Pricing.antt =====
-- src/seller/pricing.rs: the cache of fetched prices, skins, and the price that is quoted. An
-- instant is in nanoseconds, and what the server answers is an argument.
pub mod Cached
use escrow.Common.{
  ℕ, zero, suc, ◌+◌, ◌-◌, ◌*◌, ◌/◌, ◌%◌, ◌^◌, ◌≤◌, ◌<◌, ◌≡◌, refl, sym, ap, ◌∙◌, ◌≢◌, ◌↔◌, ◌⊎◌, inl,
  inr, Bool, true, false, not, ◌&&◌, ◌||◌, Option, none, some, List, [], ◌∷◌, ◌++◌, map, reverse,
  arith, ltb, leb, ◌==◌, if◌then◌else◌, bool_eq, is_some, or_else, Bool-cases, Option-cases,
  ==_refl, ==_eq, length, head?, drop, length-append, length-map, length-drop, retain, any, find,
  count, remove_last, count-append, retain-append, length-retain-le, length-retain, count_split,
  find-some, find-any, find-any_of, any-retain, any-append, count-any, Eq, lookup, insert, remove,
  lookup-insert, lookup-remove, DistinctKeys, text_keys, side_keys, nat_eq, Text, codes, text_eq,
  text_eq_refl, text_eq_eq, text_eq_sym, ℤ, pos, negsuc, u64_mod, wrapping_add, wrapping_sub, IsI64,
  int_eq, int_eq_iff, is_positive, wrapping_sub-wrapping_add, wrapping_sub_self, wrapping_sub_shift,
}
use escrow.Strings.{trim, starts_with}
use escrow.Ownership.{is_empty_text}

-- 300 seconds.
abbrev pub cache_ttl : ℕ
cache_ttl = 300_000_000_000

pub record CachedPrice : Type 0 where
  pub price : Option ℕ
  pub fetched_at : ℕ

abbrev pub Cache : Type 0
Cache = List (Text × CachedPrice)

abbrev pub fresh_price : ℕ → Option CachedPrice → Option (Option ℕ)
fresh_price now none = none
fresh_price now (some e) = if ltb cache_ttl (now - e.fetched_at) then none else some e.price

unfoldable pub lookup_cache : Cache → ℕ → Text → Option (Option ℕ)
unfolding lookup
lookup_cache cache now tag = fresh_price now (lookup tag cache)

unfoldable pub store_cache : Cache → ℕ → Text → Option ℕ → Cache
unfolding insert
store_cache cache now tag price = insert tag (record { price = price; fetched_at = now }) cache

abbrev pub is_warm : ℕ → Text × CachedPrice → Bool
is_warm now e = ltb (now - e.1.fetched_at) cache_ttl

unfoldable pub prune_expired_cache : Cache → ℕ → Cache
prune_expired_cache cache now = retain (is_warm now) cache

-- The price keys in the order in which they are tried.
abbrev pub candidates : List Text
candidates =
    codes "median"
    ∷ codes "med"
    ∷ codes "medianPrice"
    ∷ codes "mean"
    ∷ codes "average"
    ∷ codes "min"
    ∷ codes "lbin"
    ∷ codes "buyPrice"
    ∷ []

abbrev pub first_of : (Text → Option ℕ) → List Text → Option ℕ
first_of get [] = none
first_of get (key ∷ keys) = elim (get key) [ none ↦ first_of get keys | some n ↦ some n ]

-- `get` is a body's positive rounded number under a key.
unfoldable pub extract_price : (Text → Option ℕ) → Option ℕ
extract_price get = first_of get candidates

-- What a request comes to.
pub data Answer : Type 0 where
  failed not_found bad_status undecodable : Answer
  decoded : (Text → Option ℕ) → Answer

-- The three kinds of failure, and a blank tag.
pub data PriceError : Type 0 where
  empty_tag network_error http_error decode_error : PriceError

pub data PriceResult {ℓ} (A : Type ℓ) : Type ℓ where
  ok : A → PriceResult A
  err : PriceError → PriceResult A

abbrev pub answered : Cache → ℕ → Text → Answer → Cache × PriceResult (Option ℕ)
answered cache now tag failed = (cache, err network_error)
answered cache now tag not_found = (store_cache cache now tag none, ok none)
answered cache now tag bad_status = (cache, err http_error)
answered cache now tag undecodable = (cache, err decode_error)
answered cache now tag (decoded body) =
    let price = extract_price body in (store_cache cache now tag price, ok price)

-- `server` is asked for a trimmed tag that the cache has no warm price for.
unfoldable pub fetch_coflnet_median_price :
    (Text → Answer) → Cache → ℕ → Text → Cache × PriceResult (Option ℕ)
unfolding trim lookup_cache store_cache extract_price
fetch_coflnet_median_price server cache now tag =
    let t = trim tag in
    if is_empty_text t then (cache, err empty_tag) else (elim (lookup_cache cache now t) [
      | some cached ↦ (cache, ok cached)
      | none ↦ answered cache now t (server t)
    ])

abbrev pub skin_ends : Text → Bool
skin_ends [] = true
skin_ends (c ∷ cs) = c == b'_'

-- `find("_SKIN")` and the test of what stands behind the place that it finds.
unfoldable pub skin_word : Text → Bool
skin_word [] = false
skin_word (c ∷ cs) =
    let later = skin_word cs in
    if starts_with (codes "_SKIN") (c ∷ cs) then skin_ends (drop 4 cs) else later

unfoldable pub is_skin_tag : (Text → Text) → Text → Bool
unfolding skin_word
is_skin_tag to_uppercase tag =
    let upper = to_uppercase tag in starts_with (codes "SKIN_") upper || skin_word upper

pub data PriceSource : Type 0 where
  coflnet_median bin_listing auction_listing : PriceSource

abbrev pub as_str : PriceSource → Text
as_str coflnet_median = codes "coflnet_median"
as_str bin_listing = codes "bin_listing"
as_str auction_listing = codes "auction_listing"

abbrev pub Priced : Type 0
Priced = Option (ℕ × PriceSource)

abbrev pub from_median : PriceResult (Option ℕ) → PriceResult Priced
from_median (err e) = err e
from_median (ok none) = ok none
from_median (ok (some p)) = ok (some (p, coflnet_median))

unfoldable pub resolve_inventory_price :
    (Text → Answer) → Cache → ℕ → Text → Cache × PriceResult Priced
unfolding fetch_coflnet_median_price
resolve_inventory_price server cache now tag =
    let (cache', p) = fetch_coflnet_median_price server cache now tag in (cache', from_median p)

abbrev pub listing_source : Bool → PriceSource
listing_source true = bin_listing
listing_source false = auction_listing

-- The listing's own price, if it is positive.
abbrev pub own_price : Option ℕ → Bool → Priced
own_price none bin = none
own_price (some p) bin = if ltb 0 p then some (p, listing_source bin) else none

abbrev pub or_own : Priced → PriceResult (Option ℕ) → PriceResult Priced
or_own own (err e) = err e
or_own own (ok none) = ok own
or_own own (ok (some p)) = ok (some (p, coflnet_median))

unfoldable pub resolve_auction_price :
    (Text → Text)
    → (Text → Answer)
    → Cache
    → ℕ
    → Option Text
    → Option ℕ
    → Bool
    → Cache × PriceResult Priced
unfolding fetch_coflnet_median_price is_skin_tag
resolve_auction_price to_uppercase server cache now none listing_price bin =
    (cache, ok (own_price listing_price bin))
resolve_auction_price to_uppercase server cache now (some t) listing_price bin =
    let own = own_price listing_price bin in
    let (cache', p) = fetch_coflnet_median_price server cache now t in
    if is_skin_tag to_uppercase t then (cache', or_own own p) else (cache, ok own)
