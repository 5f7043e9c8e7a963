-- ===== src/Seller/Pricing/Cached.antt =====
-- src/seller/pricing.rs: how long a fetched price is used, and which tags are skins.
use escrow.Common.{
  ℕ, ◌+◌, ◌-◌, ◌≤◌, ◌≡◌, refl, ◌∙◌, inl, inr, true, false, Option, none, some, [], ◌∷◌, ◌++◌, arith,
  ltb, ◌==◌, if◌then◌else◌, Bool-cases, retain, any, lookup, lookup-insert, DistinctKeys, text_keys,
  side_keys, nat_eq, Text, codes, text_eq, text_eq_refl, text_eq_eq,
}
use escrow.Strings.{trim}
use escrow.Ownership.{is_empty_text}
use escrow.Seller.Pricing.{
  cache_ttl, Cache, is_warm, lookup_cache, store_cache, prune_expired_cache, Answer, failed,
  not_found, bad_status, undecodable, decoded, ok, err, empty_tag, answered,
  fetch_coflnet_median_price, is_skin_tag,
}

-- A stored price is what a lookup of its tag finds for five minutes, and for no other tag does a
-- store change what a lookup finds.
pub lookup_cache-store_cache :
    (cache : Cache) (at now : ℕ) (tag other : Text) (price : Option ℕ)
    → lookup_cache (store_cache cache at tag price) now other ≡ (
        if text_eq tag other
        then (if ltb cache_ttl (now - at) then none else some price)
        else lookup_cache cache now other)
unfolding lookup_cache store_cache
lookup_cache-store_cache cache at now tag other price = elim (Bool-cases (text_eq tag other)) [
  | inl e ↦ rw (lookup-insert tag other (record { price = price; fetched_at = at }) cache, e) refl
  | inr e ↦ rw (lookup-insert tag other (record { price = price; fetched_at = at }) cache, e) refl
]

answered-store_cache :
    (cache : Cache) (now : ℕ) (tag : Text) (a : Answer) (p : Option ℕ)
    → (answered cache now tag a).1 ≡ ok p
    → (answered cache now tag a).0 ≡ store_cache cache now tag p
answered-store_cache cache now tag failed p h = cc
answered-store_cache cache now tag not_found p h = cc
answered-store_cache cache now tag bad_status p h = cc
answered-store_cache cache now tag undecodable p h = cc
answered-store_cache cache now tag (decoded body) p h = cc

-- What a fetch does where the cache has no warm price.
fetch_cold :
    (server : Text → Answer) (cache : Cache) (now : ℕ) (tag : Text)
    → is_empty_text (trim tag) ≡ false
    → lookup_cache cache now (trim tag) ≡ none
    → fetch_coflnet_median_price server cache now tag
      ≡ answered cache now (trim tag) (server (trim tag))
unfolding fetch_coflnet_median_price
fetch_cold server cache now tag n h = rw (n, h) refl

fetch_warm :
    (server : Text → Answer) (cache : Cache) (now : ℕ) (tag : Text) (p : Option ℕ)
    → is_empty_text (trim tag) ≡ false
    → lookup_cache cache now (trim tag) ≡ some p
    → fetch_coflnet_median_price server cache now tag ≡ (cache, ok p)
unfolding fetch_coflnet_median_price
fetch_warm server cache now tag p n h = rw (n, h) refl

fetch_blank :
    (server : Text → Answer) (cache : Cache) (now : ℕ) (tag : Text)
    → is_empty_text (trim tag) ≡ true
    → (fetch_coflnet_median_price server cache now tag).1 ≡ err empty_tag
unfolding fetch_coflnet_median_price
fetch_blank server cache now tag n = rw n refl

-- Once the server has answered for a tag, with a price or with none, every fetch of the tag within
-- five minutes gives that answer and leaves the cache as it is, whatever the server would say.
pub fetch_coflnet_median_price_again :
    (server later_server : Text → Answer) (cache : Cache) (now later : ℕ) (tag : Text)
    (p : Option ℕ)
    → lookup_cache cache now (trim tag) ≡ none
    → (fetch_coflnet_median_price server cache now tag).1 ≡ ok p
    → later ≤ now + cache_ttl
    → let cache' = (fetch_coflnet_median_price server cache now tag).0 in
      fetch_coflnet_median_price later_server cache' later tag ≡ (cache', ok p)
fetch_coflnet_median_price_again server later_server cache now later tag p cold h l =
    let t = trim tag in
    elim (Bool-cases (is_empty_text t)) [
      | inl e ↦ cc (fetch_blank server cache now tag e, h)
      | inr n ↦
          let first = fetch_cold server cache now tag n cold in
          let stored = answered-store_cache cache now t (server t) p (rw first at h) in
          let warm : (if ltb cache_ttl (later - now) then none else some p) ≡ some p =
            ground arith in
          let same = text_eq_refl t in
          rw (first, stored)
            (fetch_warm later_server (store_cache cache now t p) later tag p n
              (lookup_cache-store_cache cache now later t t p ∙ (rw same warm)))
    ]

-- A tag that has SKINNY as its second word is never taken for a skin, whatever follows: only the
-- first place where _SKIN stands is looked at.
pub is_skin_tag_first :
    (to_uppercase : Text → Text) (rest : Text)
    → to_uppercase (codes "X_SKINNY" ++ rest) ≡ codes "X_SKINNY" ++ rest
    → is_skin_tag to_uppercase (codes "X_SKINNY" ++ rest) ≡ false
unfolding is_skin_tag
is_skin_tag_first to_uppercase rest h = rw h refl

-- No entry is exactly five minutes old.
abbrev pub NoneAtLimit : ℕ → Cache → Type 0
NoneAtLimit now cache = any (λ e. (now - e.1.fetched_at) == cache_ttl) cache ≡ false

lookup-retain :
    (now : ℕ) (cache : Cache) (tag : Text)
    → lookup tag cache ≡ none
    → lookup tag (retain (is_warm now) cache) ≡ none
unfolding lookup
lookup-retain now [] tag h = refl
lookup-retain now ((k, e) ∷ cache) tag h = ground (arith, lookup-retain now cache tag)

-- Pruning takes nothing from what a lookup at the same time finds, where each tag has one entry and
-- none is exactly five minutes old.
pub lookup_cache-prune_expired_cache :
    (cache : Cache) (now : ℕ) (tag : Text)
    → DistinctKeys cache
    → NoneAtLimit now cache
    → lookup_cache (prune_expired_cache cache now) now tag ≡ lookup_cache cache now tag
unfolding lookup_cache prune_expired_cache lookup
lookup_cache-prune_expired_cache [] now tag d n = refl
lookup_cache-prune_expired_cache ((k, e) ∷ cache) now tag d n =
    let gone = lookup-retain now cache tag in
    elim (Bool-cases (is_warm now (k, e))) [
      | inl w ↦ elim (Bool-cases (text_eq k tag)) [
        | inl q ↦ rw (w, q) refl
        | inr q ↦ rw (w, q) (lookup_cache-prune_expired_cache cache now tag d.1 (ground arith))
      ]
      | inr w ↦ elim (Bool-cases (text_eq k tag)) [
        | inl q ↦
            let same = text_eq_eq k tag q in
            let old : ltb cache_ttl (now - e.fetched_at) ≡ true = ground arith in
            rw (w, q, gone (rw same at d.0), old) refl
        | inr q ↦ rw (w, q) (lookup_cache-prune_expired_cache cache now tag d.1 (ground arith))
      ]
    ]
