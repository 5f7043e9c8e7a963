-- ===== src/Seller/Examples.antt =====
-- Tests of src/seller, and the witnesses of its theorems.
use escrow.Common.{
  ◌≡◌, refl, true, false, none, some, [], ◌∷◌, ◌++◌, arith, if◌then◌else◌, lookup, DistinctKeys,
  text_keys, side_keys, nat_eq, Text, codes, text_eq,
}
use escrow.Strings.{trim}
use escrow.Seller.Config.{
  inventory, auction, include_price, SellerConfig, sanitized, mask_token, masked, ConfigJson,
  load_from, save_to, missing, default_config,
}
use escrow.Seller.Config.Cleaning.{IsClean, load_from-save_to}
use escrow.Seller.Pricing.{
  Cache, lookup_cache, extract_price, Answer, decoded, ok, bin_listing, coflnet_median,
  fetch_coflnet_median_price, resolve_inventory_price, resolve_auction_price,
}
use escrow.Seller.Pricing.Cached.{fetch_coflnet_median_price_again}

-- A blank channel, and one with a short cooldown.
abbrev settings : SellerConfig
settings = record {
  token = codes " abcdefghijkl ";
  message = codes "hi";
  selected_items = inventory 9 true ∷ auction (codes "u") false ∷ [];
  channels =
      record { channel_id = codes "  "; cooldown_seconds = 60 }
      ∷ record { channel_id = codes " 7 "; cooldown_seconds = 1 }
      ∷ [];
}

one_channel_left :
    (sanitized settings).channels ≡ record { channel_id = codes "7"; cooldown_seconds = 5 } ∷ []
unfolding sanitized
one_channel_left = refl

prices_included : include_price (inventory 9 true) ≡ true
unfolding include_price
prices_included = refl

masked_ends : (masked settings).token ≡ codes "abcd…ijkl"
unfolding masked
masked_ends = refl

short_token_hidden : mask_token (codes "abc") ≡ codes "•••"
unfolding mask_token
short_token_hidden = refl

-- A library that writes one text for all settings, and reads the cleaned settings from it.
abbrev one_text_json : ConfigJson
one_text_json = record {
  to_string_pretty = λ s. codes "{}";
  from_str = λ t. some (sanitized settings);
}

no_file_no_settings : load_from one_text_json missing ≡ some default_config
unfolding load_from
no_file_no_settings = refl

load_from-save_to_example :
    IsClean (sanitized settings)
    × (sanitized (sanitized settings) ≡ sanitized settings)
    × (load_from one_text_json (save_to one_text_json settings) ≡ some (sanitized settings))
load_from-save_to_example = load_from-save_to one_text_json settings refl

-- Four letters of two bytes each.
abbrev greek : Text
greek = codes "αβγδ"

greek_trimmed : trim (greek ++ ([] ++ greek)) ≡ greek ++ ([] ++ greek)
unfolding trim
greek_trimmed = refl

abbrev prices : Cache
prices = (codes "HYPERION", record { price = some 900; fetched_at = 10 }) ∷ []

abbrev server : Text → Answer
server t = decoded (λ key. if text_eq key (codes "mean") then some 500 else none)

mean_where_no_median :
    extract_price (λ key. if text_eq key (codes "mean") then some 500 else none) ≡ some 500
unfolding extract_price
mean_where_no_median = refl

warm_price :
    (resolve_inventory_price server prices 20 (codes " HYPERION")).1
    ≡ ok (some (900, coflnet_median))
unfolding resolve_inventory_price
warm_price = refl

own_listing_price :
    (resolve_auction_price (λ t. t) server prices 20 (some (codes "HYPERION")) (some 7) true).1
    ≡ ok (some (7, bin_listing))
unfolding resolve_auction_price
own_listing_price = refl

skin_price :
    (resolve_auction_price (λ t. t) server [] 20 (some (codes "BEE_SKIN")) (some 7) true).1
    ≡ ok (some (500, coflnet_median))
unfolding resolve_auction_price
skin_price = refl

cold_tag : lookup_cache prices 20 (trim (codes "BEE_SKIN")) ≡ none
unfolding lookup_cache trim
cold_tag = refl

first_answer : (fetch_coflnet_median_price server prices 20 (codes "BEE_SKIN")).1 ≡ ok (some 500)
unfolding fetch_coflnet_median_price
first_answer = refl

fetch_coflnet_median_price_again_example :
    fetch_coflnet_median_price
      (λ t. Answer.failed)
      (fetch_coflnet_median_price server prices 20 (codes "BEE_SKIN")).0
      200
      (codes "BEE_SKIN")
    ≡ ((fetch_coflnet_median_price server prices 20 (codes "BEE_SKIN")).0, ok (some 500))
fetch_coflnet_median_price_again_example =
    fetch_coflnet_median_price_again server (λ t. Answer.failed) prices 20 200 (codes "BEE_SKIN")
      (some 500) cold_tag first_answer (omega arith)

distinct_prices : DistinctKeys prices
unfolding lookup
distinct_prices = (refl, tt)
