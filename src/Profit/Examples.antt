-- ===== src/Profit/Examples.antt =====
-- Tests of src/profit.rs, and the witnesses of its theorems.
use escrow.Common.{
  wrapping_add, ◌≡◌, refl, true, false, none, some, List, [], ◌∷◌, length, text_keys, side_keys,
  nat_eq, pos, negsuc, wrapping_sub,
}
use escrow.Profit.{
  ProfitPoint, ProfitTracker, with_storage, load_or_new, set_ah_total, record_ah_profit,
  set_bz_total, record_bz_profit, set_realized_ah_total, ah_points, bz_points, realized_ah, totals,
  session_totals, build_session_points,
}
use escrow.Profit.Totals.{ah_recorded, restarted, started, IsSound, Reach-IsSound}
use escrow.Profit.Sums.{
  ProfitEvent, ah_profit, bz_profit, record_all, sums, session_totals-record_all,
}

abbrev tracker : ProfitTracker
tracker = with_storage 10 true

tracker_unpoisoned : tracker.poisoned ≡ false
unfolding with_storage
tracker_unpoisoned = refl

tracker_start : tracker.session_started_at_unix ≡ 10
unfolding with_storage
tracker_start = refl

tracker_points : length tracker.inner.ah_points ≡ 1
unfolding with_storage
tracker_points = refl

recorded_totals :
    totals (record_bz_profit (set_ah_total tracker 11 (pos 50)) 12 (negsuc 6)) ≡ (pos 50, negsuc 6)
unfolding totals record_bz_profit set_ah_total with_storage wrapping_add
recorded_totals = refl

bz_series : bz_points (set_bz_total tracker 12 (pos 9)) ≡ (10, pos 0) ∷ (12, pos 9) ∷ []
unfolding bz_points set_bz_total with_storage
bz_series = refl

ah_series : ah_points (record_ah_profit tracker 12 (pos 9)) ≡ (10, pos 0) ∷ (12, pos 9) ∷ []
unfolding ah_points record_ah_profit with_storage wrapping_add
ah_series = refl

realized_after_set : realized_ah (set_realized_ah_total tracker 12 (pos 9)) ≡ some (pos 9, 12)
unfolding realized_ah set_realized_ah_total with_storage
realized_after_set = refl

same_second_replaced :
    build_session_points ((3, pos 7) ∷ (5, pos 8) ∷ (5, pos 9) ∷ []) 5 (pos 7) ≡ (5, pos 2) ∷ []
unfolding build_session_points wrapping_sub
same_second_replaced = refl

abbrev three_points : List ProfitPoint
three_points = (3, pos 7) ∷ (5, pos 8) ∷ (6, pos 9) ∷ []

abbrev restarted_once : ProfitTracker
restarted_once = load_or_new 20 (record_ah_profit tracker 12 (pos 9)).scheduled

Reach-IsSound_example : IsSound restarted_once
Reach-IsSound_example = Reach-IsSound restarted_once (
    restarted (record_ah_profit tracker 12 (pos 9)) 20
      (ah_recorded tracker 12 (pos 9) (started 10 true)))

abbrev two_profits : List ProfitEvent
two_profits = ah_profit 21 (pos 5) ∷ bz_profit 22 (negsuc 3) ∷ []

session_totals-record_all_example :
    session_totals (record_all (load_or_new 20 none) two_profits) ≡ sums (pos 0, pos 0) two_profits
session_totals-record_all_example = session_totals-record_all 20 none two_profits
