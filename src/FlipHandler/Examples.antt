-- ===== src/FlipHandler/Examples.antt =====
-- Tests of src/handlers/flip_handler.rs, and the witnesses of its theorems.
use escrow.Common.{
  ℕ, zero, suc, ◌+◌, ◌≡◌, refl, Bool, true, false, Option, none, some, List, [], ◌∷◌, arith, leb,
  text_keys, side_keys, nat_eq, Text, codes,
}
use escrow.Types.{Flip, BotState, startup, idle, purchasing, bazaar}
use escrow.Windows.{WindowSlot, default_window_config}
use escrow.FlipHandler.{
  SkipConfig, FlipConfig, FlipHandler, new, with_config, update_config, clear_current_flip,
  clear_purchase_start_time, default_flip_config, profit_of, should_skip_flip, ok, err,
  idle_timeout, became_idle, wait_for_idle, handle_flip,
}
use escrow.FlipHandler.Views.{handle_bin_auction_view}
use escrow.FlipHandler.Skips.{should_skip_flip-loss}
use escrow.FlipHandler.Waiting.{
  pause, Ended, AllPurchasing, wait_for_idle-ends, handle_flip-AllPurchasing,
}
use escrow.FlipHandler.Clicks.{IsNumbered, Act, view, confirm, spam, act_all, act_all-IsNumbered}

abbrev flip : Flip
flip = record {
  item_name = codes "Bow";
  starting_bid = 900;
  target = 400;
  finder = none;
  profit_perc = none;
  purchase_at_ms = none;
  uuid = none;
  list_at = none;
}

abbrev skips : SkipConfig
skips = record {
  always = false;
  min_profit = some 1000;
  user_finder = false;
  skins = false;
  profit_percentage = none;
  min_price = some 800;
}

abbrev config : FlipConfig
config = record default_flip_config { skip = some skips }

abbrev ge : ℕ → ℕ → Bool
ge a b = leb b a

abbrev lower : Text → Text
lower t = t

abbrev handler : FlipHandler
handler = with_config config

abbrev nugget_slot : List WindowSlot
nugget_slot =
    record { index = 31; item_id = 371; count = 1; name = codes "gold_nugget"; display_name = none }
    ∷ []

cleared : (clear_purchase_start_time (clear_current_flip new)).current_flip ≡ none
unfolding clear_purchase_start_time clear_current_flip new
cleared = refl

-- New settings do not reach the window handler.
old_window_settings :
    (update_config new (record config {
      window_config = record default_window_config { flip_action_delay = 1 };
    })).window_config
    ≡ default_window_config
unfolding update_config new
old_window_settings = refl

startup_ignored : (handle_flip (λ c. true) handler flip startup []).result ≡ some ok
unfolding handle_flip with_config
startup_ignored = refl

empty_window_potatoed : (handle_bin_auction_view lower ge handler 5 1 2 []).clicks ≡ []
unfolding handle_bin_auction_view with_config
empty_window_potatoed = refl

should_skip_flip-loss_example : should_skip_flip lower ge config flip (profit_of flip) ≡ true
should_skip_flip-loss_example =
    should_skip_flip-loss lower ge config skips flip 1000 refl refl (omega arith) (omega arith)
      (omega arith)

-- Polls 1.1 seconds apart that always find one state.
abbrev steady : ℕ → ℕ → BotState → List (ℕ × BotState)
steady zero at state = []
steady (suc n) at state = (at, state) ∷ steady n (at + pause) state

wait_for_idle-ends_example : Ended (steady 29 0 bazaar) (wait_for_idle (steady 29 0 bazaar))
wait_for_idle-ends_example = wait_for_idle-ends (steady 29 0 bazaar) (omega arith) (omega arith)

idle_at_once : wait_for_idle (steady 1 0 idle) ≡ became_idle
unfolding wait_for_idle
idle_at_once = refl

handler_enabled : handler.config.enabled ≡ true
unfolding with_config
handler_enabled = refl

steady-AllPurchasing : (n at : ℕ) → AllPurchasing (steady n at purchasing)
steady-AllPurchasing zero at = tt
steady-AllPurchasing (suc n) at = (refl, steady-AllPurchasing n (at + pause))

handle_flip-AllPurchasing_example :
    ((handle_flip (λ c. true) handler flip purchasing (steady 29 0 purchasing)).result
      ≡ some (err (idle_timeout purchasing)))
    × ((handle_flip
          (λ c. true)
          handler
          flip
          purchasing
          (steady 29 0 purchasing)).handler.current_flip
        ≡ none)
    × ((handle_flip (λ c. true) handler flip purchasing (steady 29 0 purchasing)).written ≡ none)
    × ((handle_flip (λ c. true) handler flip purchasing (steady 29 0 purchasing)).sent ≡ none)
handle_flip-AllPurchasing_example =
    handle_flip-AllPurchasing (λ c. true) handler flip (steady 29 0 purchasing) handler_enabled
      (steady-AllPurchasing 29 0) (omega arith) (omega arith)

abbrev acts : List Act
acts = view 5 1 2 nugget_slot ∷ confirm 2 ∷ spam 3 (some (codes "gold_nugget") ∷ []) ∷ []

act_all-IsNumbered_example :
    IsNumbered handler.action_counter
      (act_all lower ge handler acts).1
      (act_all lower ge handler acts).0.action_counter
act_all-IsNumbered_example = act_all-IsNumbered lower ge handler acts

abbrev bed_polls : List (Option Text)
bed_polls =
    some (codes "bed") ∷ some (codes "bed") ∷ some (codes "bed") ∷ some (codes "bed") ∷ none ∷ []

five_failed_clicks : handler.window_config.bed_spam_max_failed_clicks ≡ 5
unfolding with_config
five_failed_clicks = refl
