-- ===== src/Restart/Examples.antt =====
-- src/main.rs: a restart an hour after a purchase.
use escrow.Common.{
  ℕ, ◌-◌, ◌*◌, ◌≤◌, ◌≡◌, refl, true, false, Option, none, some, [], ◌∷◌, arith, leb, if◌then◌else◌,
  lookup, insert, remove, DistinctKeys, text_keys, side_keys, nat_eq, Text, codes, text_eq, pos,
  wrapping_add, wrapping_sub,
}
use escrow.Types.{Flip, Instant, idle, manage_orders}
use escrow.Restart.{
  TrackedFlip, FlipTracker, save_flip_tracker, load_flip_tracker_file, restore_flip_tracker,
  calculate_ah_fee, tracked_finder_profit, should_enqueue_periodic_auction_claim,
  should_drop_bazaar_command_during_ah_pause, write_rest_break_marker, pending_rest_break_secs,
  resumed_from_rest_break, save_session_time, clear_session_time, missing, ah_purchase_ledger_key,
}
use escrow.Restart.Flips.{IsCarried, age_after, restore_flip_tracker-save_flip_tracker}
use escrow.Restart.Fees.{IsPart, two_percent, calculate_ah_fee-bounds}

abbrev flip : Flip
flip = record {
  item_name = codes "Hyperion";
  starting_bid = 900_000_000;
  target = 1_000_000_000;
  finder = some (codes "SNIPER");
  profit_perc = none;
  purchase_at_ms = some (pos 1_785_000_000_000);
  uuid = none;
  list_at = none;
}

-- Bought at second 5 of the monotonic clock.
abbrev bought : TrackedFlip
bought = record {
  flip = flip;
  buy_price = 900_000_000;
  purchased = 5_000_000_000;
  received = 4_000_000_000;
}

abbrev tracker : FlipTracker
tracker = (codes "hyperion", bought) ∷ []

abbrev ign : Text
ign = codes "Steve"

abbrev checked_sub : Instant → ℕ → Option Instant
checked_sub t secs = if leb (secs * 1_000_000_000) t then some (t - secs * 1_000_000_000) else none

-- One tier of the fee and the next.
first_tier : calculate_ah_fee 9_999_999 ≡ 99_999
unfolding calculate_ah_fee
first_tier = refl

promised :
    tracked_finder_profit (λ t. t) tracker (codes "hyperion")
    ≡ (some (codes "SNIPER"), some (pos 75_000_000))
unfolding tracked_finder_profit lookup wrapping_sub wrapping_add
promised = refl

claim_when_idle : should_enqueue_periodic_auction_claim idle true ≡ true
unfolding should_enqueue_periodic_auction_claim
claim_when_idle = refl

full_inventory :
    should_drop_bazaar_command_during_ah_pause (manage_orders false none) true true ≡ false
unfolding should_drop_bazaar_command_during_ah_pause
full_inventory = refl

resting : pending_rest_break_secs (write_rest_break_marker ign 500) 480 ign ≡ some 20
unfolding pending_rest_break_secs
resting = refl

rested : resumed_from_rest_break (write_rest_break_marker ign 500) ign ≡ true
unfolding resumed_from_rest_break
rested = refl

cleared :
    clear_session_time (save_session_time 9 missing ign 100) ign ≡ clear_session_time missing ign
unfolding clear_session_time save_session_time insert remove
cleared = refl

by_uuid : ah_purchase_ledger_key (λ t. t) (codes "Hyperion") (some (codes "abc")) ≡ codes "uuid:abc"
unfolding ah_purchase_ledger_key
by_uuid = refl

one_entry : lookup (codes "hyperion") tracker ≡ some bought
unfolding lookup
one_entry = refl

one_key : DistinctKeys tracker
unfolding lookup
one_key = (refl, tt)

restore_flip_tracker-save_flip_tracker_example :
    let saved = save_flip_tracker some 10_000 65_000_000_000 none ign tracker in
    IsCarried (age_after 10_000 13_600 65_000_000_000 bought) 9_000_000_000_000 bought (
      lookup
        (codes "hyperion")
        (restore_flip_tracker checked_sub some 13_600 9_000_000_000_000 (some saved) ign))
    × ((other : Text)
        → text_eq ign other ≡ false
        → lookup other saved ≡ lookup other (load_flip_tracker_file some none))
restore_flip_tracker-save_flip_tracker_example =
    restore_flip_tracker-save_flip_tracker some checked_sub 10_000 13_600 65_000_000_000
      9_000_000_000_000 none ign (codes "hyperion") tracker bought one_key one_entry refl tt refl
      (omega arith) (omega arith) (omega arith) (omega arith) refl

calculate_ah_fee-bounds_example :
    IsPart 20 10_000_000 (calculate_ah_fee 10_000_000)
    × (calculate_ah_fee 10_000_000 ≤ calculate_ah_fee 100_000_000)
calculate_ah_fee-bounds_example =
    calculate_ah_fee-bounds 10_000_000 100_000_000 20 (two_percent (omega arith) (omega arith))
      (omega arith) (omega arith)
