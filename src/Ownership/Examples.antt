-- ===== src/Ownership/Examples.antt =====
-- Tests of src/auction_ownership.rs, and the witnesses of its theorems.
use escrow.Common.{
  ◌≡◌, refl, true, false, none, some, [], ◌∷◌, arith, any, length, text_keys, side_keys, nat_eq,
  Text, codes, pos,
}
use escrow.Ownership.{
  ours, foreign, unknown, Stores, normalize_item_name, names_match, is_empty_text, is_listing,
  listing, ownership_of, note_own_listing, collect_prices, fetch_cofl_auctions, refresh_remote,
  set_enabled, load_own_listings,
}
use escrow.Ownership.Verdicts.{Justified, ownership_of-Justified}
use escrow.Ownership.Lasting.{Note, note_all, ownership_of-note_all}
use escrow.Ownership.Listings.{
  IsPruned, ownership_of-note_own_listing, relisted, up_to_bound, length-relisted,
}

abbrev aspect : Text
aspect = codes "Aspect of the End"

-- One listing of the sword for a thousand coins, and no answer of the servers yet.
abbrev stores : Stores
stores = record {
  enabled = true;
  own_listings = listing (codes "aspect of the end") (pos 1000) 50 ∷ [];
  remote_auctions = [];
  remote_fetched = false;
}

normalised : normalize_item_name (codes " [Lvl 12]  Bee") ≡ codes "lvl 12 bee"
unfolding normalize_item_name
normalised = refl

contained_name_matches :
    names_match (codes "aspect of the end") (codes "heroic aspect of the end") ≡ true
unfolding names_match
contained_name_matches = refl

short_names_do_not : names_match (codes "bow") (codes "runaans bow") ≡ false
unfolding names_match
short_names_do_not = refl

judged_ours : ownership_of stores aspect (some (pos 1000)) ≡ ours
unfolding ownership_of normalize_item_name names_match
judged_ours = refl

judged_foreign : ownership_of stores aspect (some (pos 999)) ≡ foreign
unfolding ownership_of normalize_item_name names_match
judged_foreign = refl

nameless_unknown : ownership_of stores (codes "--") none ≡ unknown
unfolding ownership_of normalize_item_name
nameless_unknown = refl

prices_once :
    collect_prices [] (some (pos 5) ∷ none ∷ some (pos 0) ∷ some (pos 5) ∷ []) ≡ pos 5 ∷ []
unfolding collect_prices
prices_once = refl

failed_page_ends : fetch_cofl_auctions 10 (none ∷ some ((some aspect, []) ∷ []) ∷ []) ≡ none
unfolding fetch_cofl_auctions
failed_page_ends = refl

no_uuid : refresh_remote stores 60 (codes "me") (some (codes "key")) none none [] ≡ (stores, false)
unfolding refresh_remote
no_uuid = refl

no_key_falls_back :
    refresh_remote stores 60 (codes "me") (some []) (some (codes "u")) (some []) []
    ≡ (stores, false)
unfolding refresh_remote
no_key_falls_back = refl

old_file_pruned :
    (load_own_listings stores 604901 (some (listing aspect (pos 1) 100 ∷ []))).own_listings ≡ []
unfolding load_own_listings
old_file_pruned = refl

switched_off : (set_enabled stores false).enabled ≡ false
unfolding set_enabled
switched_off = refl

ownership_of-Justified_example : Justified stores aspect none (ownership_of stores aspect none)
ownership_of-Justified_example = ownership_of-Justified stores aspect none

aspect_has_name : is_empty_text (normalize_item_name aspect) ≡ false
unfolding normalize_item_name
aspect_has_name = refl

ownership_of-note_own_listing_example :
    (ownership_of (note_own_listing stores 60 aspect (pos 2000)) aspect (some (pos 2000)) ≡ ours)
    × IsPruned 60 (note_own_listing stores 60 aspect (pos 2000)).own_listings
ownership_of-note_own_listing_example =
    ownership_of-note_own_listing stores 60 aspect (pos 2000) (omega arith) refl aspect_has_name

unpriced_absent : any (is_listing (normalize_item_name aspect) (pos 0)) stores.own_listings ≡ false
unfolding normalize_item_name
unpriced_absent = refl

length-relisted_example :
    length (relisted 3 stores 60 (codes "Aspect of the End") (pos 0)).own_listings
    ≡ up_to_bound (length stores.own_listings) 3
length-relisted_example =
    length-relisted 3 stores 60 (codes "Aspect of the End") (pos 0) refl aspect_has_name
      (omega arith, refl) unpriced_absent

-- Another sword, for another price, a day later.
abbrev next_day : Note
next_day = record { now = 86460; item_name = aspect; price = pos 3000 }

ownership_of-note_all_example :
    ownership_of
      (note_all (next_day ∷ []) (note_own_listing stores 60 aspect (pos 2000)))
      aspect
      (some (pos 2000))
    ≡ ours
ownership_of-note_all_example =
    ownership_of-note_all stores 60 aspect (pos 2000) (next_day ∷ []) refl aspect_has_name
      (omega arith) (omega arith, omega arith, tt)
