-- ===== src/FlipHandler/Views.antt =====
-- src/handlers/flip_handler.rs: what the handler does in the windows of a purchase.
use escrow.Common.{
  ℕ, zero, suc, ◌+◌, Bool, true, false, ◌||◌, Option, none, some, List, [], ◌∷◌, leb, ◌==◌,
  if◌then◌else◌, length, find, text_keys, side_keys, nat_eq, Text, codes, text_eq,
}
use escrow.Types.{Flip, F64, Instant}
use escrow.Windows.{WindowSlot, is_slot}
use escrow.FlipHandler.{
  FlipHandler, SkipReason, profit_of, should_skip_flip, log_skip_reason, Click, click_slot,
  FlipResult, ok, err, potatoed, insufficient_funds, stained_glass_pane, unexpected_item,
}

-- What a handler of a window leaves: the handler, its clicks in their order, the reason that is
-- logged for a skip, and its result.
pub record ViewRun : Type 0 where
  pub handler : FlipHandler
  pub clicks : List Click
  pub logged : Option SkipReason
  pub result : FlipResult

-- The item of the purchase button's slot.
pub data Button : Type 0 where
  gold_nugget bed gone feather gold_block poisonous_potato glass_pane : Button
  other : Text → Button

abbrev pub button_of : Text → Button
button_of name =
    if text_eq name (codes "gold_nugget")
    then gold_nugget
    else if text_eq name (codes "bed")
    then bed
    else if text_eq name (codes "potato") || length name == 0
    then gone
    else if text_eq name (codes "feather")
    then feather
    else if text_eq name (codes "gold_block")
    then gold_block
    else if text_eq name (codes "poisonous_potato")
    then poisonous_potato
    else if text_eq name (codes "stained_glass_pane")
    then glass_pane
    else other name

abbrev pub button_name : Option WindowSlot → Text
button_name none = []
button_name (some s) = s.name

abbrev fails : FlipHandler → FlipResult → ViewRun
fails s r = record { handler = s; clicks = []; logged = none; result = r }

module _ (to_lowercase : Text → Text) (ge : F64 → F64 → Bool) where
  abbrev pub skip_now : FlipHandler → Option Flip → Bool
  skip_now s none = false
  skip_now s (some flip) = should_skip_flip to_lowercase ge s.config flip (profit_of flip)

  abbrev logged_now : FlipHandler → Option Flip → Option SkipReason
  logged_now s none = none
  logged_now s (some flip) = log_skip_reason to_lowercase ge s.config flip (profit_of flip)

  -- The purchase button is clicked, and to skip the confirm button of the next window.
  abbrev pub buy : FlipHandler → ℕ → ℕ → ViewRun
  buy s window_id next_window_id =
      let (s1, first) = click_slot s 31 window_id 371 in
      let (s2, second) = click_slot s1 11 next_window_id 159 in
      if skip_now s s.current_flip
      then record {
        handler = record s2 { recently_skipped = true };
        clicks = first ∷ second ∷ [];
        logged = logged_now s s.current_flip;
        result = ok;
      }
      else record {
        handler = record s1 { recently_skipped = false };
        clicks = first ∷ [];
        logged = none;
        result = ok;
      }

  abbrev pub press : Button → FlipHandler → ℕ → ℕ → ViewRun
  press gold_nugget s window_id next_window_id = buy s window_id next_window_id
  press bed s window_id next_window_id = fails s ok
  press gone s window_id next_window_id = fails s (err potatoed)
  press feather s window_id next_window_id = fails s ok
  press gold_block s window_id next_window_id =
      let (s1, first) = click_slot s 31 window_id 41 in
      record { handler = s1; clicks = first ∷ []; logged = none; result = ok }
  press poisonous_potato s window_id next_window_id = fails s (err insufficient_funds)
  press glass_pane s window_id next_window_id = fails s (err stained_glass_pane)
  press (other name) s window_id next_window_id = fails s (err (unexpected_item name))

  unfoldable pub handle_bin_auction_view : FlipHandler → Instant → ℕ → ℕ → List WindowSlot → ViewRun
  unfolding click_slot should_skip_flip log_skip_reason
  handle_bin_auction_view s now window_id next_window_id slots =
      press (button_of (button_name (find (is_slot 31) slots)))
        (record s { purchase_start_time = some now }) window_id next_window_id

-- `for _ in 0..n`: the confirm button is clicked each time.
abbrev pub confirm_again : ℕ → FlipHandler → ℕ → FlipHandler × List Click
confirm_again zero s window_id = (s, [])
confirm_again (suc n) s window_id =
    let (s1, first) = click_slot s 11 window_id 159 in
    let (s2, clicks) = confirm_again n s1 window_id in (s2, first ∷ clicks)

unfoldable pub handle_confirm_purchase : FlipHandler → ℕ → FlipHandler × List Click
unfolding click_slot
handle_confirm_purchase s window_id =
    let (s1, first) = click_slot s 11 window_id 159 in
    let (s2, retries) = confirm_again 3 s1 window_id in
    if s.recently_skipped then confirm_again 3 s window_id else (s2, first ∷ retries)

-- How a bed spam ends, or that it goes on.
pub data BedSpam : Type 0 where
  gave_up window_closed nugget_clicked spamming : BedSpam

-- The loop: each poll is the name of the slot's item, or `none` where the window is closed.
unfoldable pub bed_loop : ℕ → ℕ → List (Option Text) → BedSpam
bed_loop max_failed failed_clicks [] = if leb max_failed failed_clicks then gave_up else spamming
bed_loop max_failed failed_clicks (none ∷ polls) =
    if leb max_failed failed_clicks then gave_up else window_closed
bed_loop max_failed failed_clicks (some name ∷ polls) =
    let rest = bed_loop max_failed (failed_clicks + 1) polls in
    if leb max_failed failed_clicks
    then gave_up
    else if text_eq name (codes "gold_nugget")
    then nugget_clicked
    else rest

abbrev pub bed_clicks : FlipHandler → ℕ → BedSpam → FlipHandler × List Click
bed_clicks s window_id nugget_clicked =
    let (s1, first) = click_slot s 31 window_id 371 in (s1, first ∷ [])
bed_clicks s window_id _ = (s, [])

unfoldable pub init_bed_spam :
    FlipHandler → ℕ → List (Option Text) → FlipHandler × List Click × BedSpam
unfolding bed_loop click_slot
init_bed_spam s window_id polls =
    let end = bed_loop s.window_config.bed_spam_max_failed_clicks 0 polls in
    let (s1, clicks) = bed_clicks s window_id end in (s1, clicks, end)
