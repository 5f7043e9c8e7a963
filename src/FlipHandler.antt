-- ===== src/FlipHandler.antt =====
-- src/handlers/flip_handler.rs: the purchase of an auction flip. The clicks that it
-- numbers, which the source writes to its log where the packet would be sent, and the commands that it
-- sends are part of each result. The states that a wait finds, and the slots that a poll finds, are lists: an
-- element is the time since the loop began, in nanoseconds, and what is found then.
pub mod Skips
pub mod Waiting
pub mod Views
pub mod Clicks
mod Examples
use escrow.Common.{
  ℕ, zero, suc, ◌+◌, ◌-◌, ◌*◌, ◌/◌, ◌%◌, ◌^◌, ◌≤◌, ◌<◌, ◌≡◌, refl, sym, ap, ◌∙◌, ◌≢◌, ◌↔◌, ◌⊎◌, inl,
  inr, Bool, true, false, not, ◌&&◌, ◌||◌, Option, none, some, List, [], ◌∷◌, ◌++◌, map, reverse,
  arith, ltb, leb, ◌==◌, if◌then◌else◌, bool_eq, is_some, or_else, Bool-cases, Option-cases,
  ==_refl, ==_eq, length, head?, drop, length-append, length-map, length-drop, retain, any, find,
  count, remove_last, count-append, retain-append, length-retain-le, length-retain, count_split,
  find-some, find-any, find-any_of, any-retain, any-append, count-any, Eq, lookup, insert, remove,
  lookup-insert, lookup-remove, DistinctKeys, text_keys, side_keys, nat_eq, Text, codes, text_eq,
  text_eq_refl, text_eq_eq, text_eq_sym, ℤ, pos, negsuc, u64_mod, wrapping_add, wrapping_sub, IsI64,
  int_eq, int_eq_iff, is_positive, wrapping_sub-wrapping_add, wrapping_sub_self, wrapping_sub_shift,
}
use escrow.Types.{Flip, F64, Instant, BotState, startup, idle, purchasing}
use escrow.Strings.{contains}
use escrow.Windows.{WindowConfig, WindowSlot, default_window_config, is_slot}

pub record SkipConfig : Type 0 where
  pub always : Bool
  pub min_profit : Option ℕ
  pub user_finder : Bool
  pub skins : Bool
  pub profit_percentage : Option F64
  pub min_price : Option ℕ

pub record FlipConfig : Type 0 where
  pub enabled : Bool
  pub skip : Option SkipConfig
  pub window_config : WindowConfig

abbrev pub default_flip_config : FlipConfig
default_flip_config = record { enabled = true; skip = none; window_config = default_window_config }

-- `action_counter` is the bit pattern of an `i16`; `window_config` is the window handler's.
pub record FlipHandler : Type 0 where
  pub current_flip : Option Flip
  pub action_counter : ℕ
  pub recently_skipped : Bool
  pub purchase_start_time : Option Instant
  pub config : FlipConfig
  pub window_config : WindowConfig

unfoldable pub with_config : FlipConfig → FlipHandler
with_config config = record {
  current_flip = none;
  action_counter = 1;
  recently_skipped = false;
  purchase_start_time = none;
  config = config;
  window_config = config.window_config;
}

unfoldable pub new : FlipHandler
unfolding with_config
new = with_config default_flip_config

unfoldable pub update_config : FlipHandler → FlipConfig → FlipHandler
update_config s config = record s { config = config }

unfoldable pub clear_current_flip : FlipHandler → FlipHandler
clear_current_flip s = record s { current_flip = none }

unfoldable pub clear_purchase_start_time : FlipHandler → FlipHandler
clear_purchase_start_time s = record s { purchase_start_time = none }

-- `flip.target - flip.starting_bid` in `u64` arithmetic, which wraps.
abbrev pub profit_of : Flip → ℕ
profit_of flip = (flip.target + u64_mod - flip.starting_bid) % u64_mod

abbrev pub at_least : ℕ → Option ℕ → Bool
at_least n none = false
at_least n (some limit) = leb limit n

abbrev pub is_user : Option Text → Bool
is_user none = false
is_user (some finder) = text_eq finder (codes "USER")

-- What is logged for a skipped flip.
pub data SkipReason : Type 0 where
  always_skipped min_profit_reached user_flip skin_flip percentage_reached min_price_reached
        unclear :
      SkipReason

-- The lowercasing of Unicode text, and `>=` on `f64`.
module _ (to_lowercase : Text → Text) (ge : F64 → F64 → Bool) where
  abbrev pub is_skin : Text → Bool
  is_skin item_name = contains (codes "skin") (to_lowercase item_name)

  abbrev pub percentage_at_least : Option F64 → Option F64 → Bool
  percentage_at_least (some profit_perc) (some limit) = ge profit_perc limit
  percentage_at_least _ _ = false

  abbrev pub skips_by : SkipConfig → Flip → ℕ → Bool
  skips_by c flip profit =
      c.always
      || at_least profit c.min_profit
      || (c.user_finder && is_user flip.finder)
      || (c.skins && is_skin flip.item_name)
      || percentage_at_least flip.profit_perc c.profit_percentage
      || at_least flip.starting_bid c.min_price

  unfoldable pub should_skip_flip : FlipConfig → Flip → ℕ → Bool
  unfolding contains
  should_skip_flip config flip profit = elim config.skip [
    | none ↦ false
    | some c ↦ skips_by c flip profit
  ]

  -- The arms of the ladder from `min_price` upwards: an arm that is entered and fails is unclear.
  abbrev price_reason : Option ℕ → Flip → SkipReason
  price_reason none flip = unclear
  price_reason (some limit) flip =
      if leb limit flip.starting_bid then min_price_reached else unclear

  abbrev percentage_reason : Option F64 → SkipConfig → Flip → SkipReason
  percentage_reason none c flip = price_reason c.min_price flip
  percentage_reason (some limit) c flip =
      if percentage_at_least flip.profit_perc (some limit) then percentage_reached else unclear

  abbrev profit_reason : Option ℕ → SkipConfig → Flip → ℕ → SkipReason
  profit_reason (some limit) c flip profit =
      if leb limit profit then min_profit_reached else unclear
  profit_reason none c flip profit =
      if c.user_finder
      then (if is_user flip.finder then user_flip else unclear)
      else if c.skins && is_skin flip.item_name
      then skin_flip
      else percentage_reason c.profit_percentage c flip

  -- `none` where there are no skip settings, and nothing is logged.
  unfoldable pub log_skip_reason : FlipConfig → Flip → ℕ → Option SkipReason
  unfolding contains
  log_skip_reason config flip profit = elim config.skip [
    | none ↦ none
    | some c ↦ some (if c.always then always_skipped else profit_reason c.min_profit c flip profit)
  ]

-- A click of the handler; a confirm click has no slot.
pub record Click : Type 0 where
  pub slot : Option ℕ
  pub window_id : ℕ
  pub item_id : ℕ
  pub action : ℕ

unfoldable pub click_slot : FlipHandler → ℕ → ℕ → ℕ → FlipHandler × Click
click_slot s slot window_id item_id = (
  record s { action_counter = (s.action_counter + 1) % 65536 },
  record { slot = some slot; window_id = window_id; item_id = item_id; action = s.action_counter },
)

unfoldable pub confirm_click : FlipHandler → ℕ → FlipHandler × Click
confirm_click s window_id = (
  record s { action_counter = (s.action_counter + 1) % 65536 },
  record { slot = none; window_id = window_id; item_id = 0; action = s.action_counter },
)

pub data FlipError : Type 0 where
  idle_timeout : BotState → FlipError
  missing_uuid : Text → FlipError
  send_failed potatoed insufficient_funds stained_glass_pane : FlipError
  unexpected_item : Text → FlipError

pub data FlipResult : Type 0 where
  ok : FlipResult
  err : FlipError → FlipResult

-- How the wait for the idle state ends, or that it goes on.
pub data IdleWait : Type 0 where
  became_idle waiting : IdleWait
  gave_up : BotState → IdleWait

abbrev pub is_idle : BotState → Bool
is_idle idle = true
is_idle _ = false

abbrev pub is_startup : BotState → Bool
is_startup startup = true
is_startup _ = false

-- Thirty seconds.
abbrev pub max_wait : ℕ
max_wait = 30_000_000_000

unfoldable pub wait_for_idle : List (ℕ × BotState) → IdleWait
wait_for_idle [] = waiting
wait_for_idle ((elapsed, state) ∷ polls) =
    let rest = wait_for_idle polls in
    if is_idle state then became_idle else if ltb max_wait elapsed then gave_up state else rest

abbrev pub usable_uuid : Option Text → Option Text
usable_uuid none = none
usable_uuid (some []) = none
usable_uuid (some (c ∷ cs)) = some (c ∷ cs)

-- What a call leaves: the handler, the state that it wrote to the bot last, if any, the command that
-- it sent, and its result, `none` while it waits.
pub record FlipRun : Type 0 where
  pub handler : FlipHandler
  pub written : Option BotState
  pub sent : Option Text
  pub result : Option FlipResult

abbrev pub finished : FlipHandler → Option BotState → Option Text → FlipResult → FlipRun
finished s state command r = record {
  handler = s;
  written = state;
  sent = command;
  result = some r;
}

-- From the moment the bot is idle. The closure `send_command` may fail.
abbrev pub purchase : (Text → Bool) → FlipHandler → Flip → FlipRun
purchase send s flip = elim (usable_uuid flip.uuid) [
  | none ↦ finished s (some purchasing) none (err (missing_uuid flip.item_name))
  | some uuid ↦
      let command = codes "/viewauction " ++ uuid in
      if send command
      then finished s (some idle) (some command) ok
      else finished s (some purchasing) (some command) (err send_failed)
]

unfoldable pub handle_flip :
    (Text → Bool) → FlipHandler → Flip → BotState → List (ℕ × BotState) → FlipRun
unfolding wait_for_idle
handle_flip send s flip state polls =
    let s' = record s { current_flip = some flip } in
    if not s.config.enabled
    then finished s none none ok
    else if is_startup state
    then finished s none none ok
    else (elim (wait_for_idle polls) [
      | became_idle ↦ purchase send s' flip
      | waiting ↦ record { handler = s'; written = none; sent = none; result = none }
      | gave_up stuck ↦
          finished (record s { current_flip = none }) none none (err (idle_timeout stuck))
    ])
