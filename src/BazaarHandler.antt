-- ===== src/BazaarHandler.antt =====
-- src/handlers/bazaar_flip_handler.rs: the placing of a bazaar order, with its retries. The states
-- that a call writes to the bot, the commands that it sends and the delays that it waits are part of
-- its result.
pub mod Distance
pub mod Retries
mod Examples
use escrow.Common.{
  ℕ, zero, suc, ◌+◌, ◌-◌, ◌*◌, ◌/◌, ◌%◌, ◌^◌, ◌≤◌, ◌<◌, ◌≡◌, refl, sym, ap, ◌∙◌, ◌≢◌, ◌↔◌, ◌⊎◌, inl,
  inr, Bool, true, false, not, ◌&&◌, ◌||◌, Option, none, some, List, [], ◌∷◌, ◌++◌, map, reverse,
  arith, ltb, leb, ◌==◌, if◌then◌else◌, bool_eq, is_some, or_else, Bool-cases, Option-cases,
  ==_refl, ==_eq, length, head?, drop, length-append, length-map, length-drop, retain, any, find,
  count, remove_last, count-append, retain-append, length-retain-le, length-retain, count_split,
  find-some, find-any, find-any_of, any-retain, any-append, count-any, Eq, lookup, insert, remove,
  lookup-insert, lookup-remove, DistinctKeys, text_keys, side_keys, nat_eq, Text, codes, text_eq,
  text_eq_refl, text_eq_eq, text_eq_sym, ℤ, pos, negsuc, u64_mod, wrapping_add, wrapping_sub, IsI64,
  int_eq, int_eq_iff, is_positive, wrapping_sub-wrapping_add, wrapping_sub_self, wrapping_sub_shift,
}
use escrow.Types.{F64, Instant, BotState, idle, bazaar}
use escrow.Strings.{contains}
use escrow.FlipHandler.{is_startup}
use escrow.Windows.{WindowConfig, default_window_config}

pub record BazaarFlipConfig : Type 0 where
  pub enabled : Bool
  pub max_buy_orders : ℕ
  pub max_sell_orders : ℕ

abbrev pub default_bazaar_flip_config : BazaarFlipConfig
default_bazaar_flip_config = record { enabled = true; max_buy_orders = 10; max_sell_orders = 10 }

-- `window_config` is the window handler's.
pub record BazaarFlipHandler : Type 0 where
  pub config : BazaarFlipConfig
  pub window_config : WindowConfig
  pub last_limit_warning_time : Instant

-- `now` is at least two minutes, in nanoseconds.
unfoldable pub with_config : Instant → BazaarFlipConfig → BazaarFlipHandler
with_config now config = record {
  config = config;
  window_config = default_window_config;
  last_limit_warning_time = now - 120_000_000_000;
}

unfoldable pub new : Instant → BazaarFlipHandler
unfolding with_config
new now = with_config now default_bazaar_flip_config

unfoldable pub update_config : BazaarFlipHandler → BazaarFlipConfig → BazaarFlipHandler
update_config s config = record s { config = config }

unfoldable pub is_enabled : BazaarFlipHandler → Bool
is_enabled s = s.config.enabled

pub record BazaarFlipRecommendation : Type 0 where
  pub item_name : Text
  pub item_tag : Option Text
  pub amount : ℕ
  pub price_per_unit : F64
  pub total_price : Option F64
  pub is_buy_order : Bool
  pub is_sell : Option Bool

abbrev pub max_order_placement_retries : ℕ
max_order_placement_retries = 3

abbrev pub retry_backoff_base_ms : ℕ
retry_backoff_base_ms = 1000

-- What a call does. A result of `none` is success, `some` an error's message.
pub record FlipRun : Type 0 where
  pub states : List BotState
  pub sent : List Text
  pub delays : List ℕ
  pub result : Option Text

abbrev pub quiet : FlipRun
quiet = record { states = []; sent = []; delays = []; result = none }

-- The function that capitalises each word.
module _ (to_title_case : Text → Text) where
  abbrev pub search_term : BazaarFlipRecommendation → Text
  search_term r = elim r.item_tag [ none ↦ to_title_case r.item_name | some tag ↦ tag ]

  abbrev pub order_command : BazaarFlipRecommendation → Text
  order_command r = codes "/bz " ++ search_term r

unfoldable pub is_retryable : Text → Bool
unfolding contains
is_retryable message =
    contains (codes "timed out") message || contains (codes "Price failsafe") message

abbrev pub backoff_delay : ℕ → ℕ
backoff_delay attempt = retry_backoff_base_ms * 2 ^ (attempt - 1)

-- The end of the last attempt that is made.
abbrev pub last_attempt : Text → Option Text → FlipRun
last_attempt command r = record {
  states = bazaar ∷ idle ∷ [];
  sent = command ∷ [];
  delays = [];
  result = r;
}

abbrev pub or_failed : Option Text → Text
or_failed none = codes "Order placement failed after all retries"
or_failed (some message) = message

abbrev pub retried : Text → ℕ → FlipRun → FlipRun
retried command attempt rest = record {
  states = bazaar ∷ idle ∷ rest.states;
  sent = command ∷ rest.sent;
  delays = backoff_delay attempt ∷ rest.delays;
  result = rest.result;
}

-- An attempt by its answer, and what follows if it is tried again.
unfoldable pub attempt_with : Text → ℕ → Option Text → FlipRun → FlipRun
unfolding is_retryable
attempt_with command attempt none rest = last_attempt command none
attempt_with command attempt (some message) rest =
    if ltb attempt max_order_placement_retries && is_retryable message
    then retried command attempt rest
    else last_attempt command (some message)

-- The attempts that are left, from number `attempt` on, after the error `last_error`. The closure that
-- sends a command answers `none`, or an error, to each attempt.
unfoldable pub attempts : (ℕ → Text → Option Text) → Text → ℕ → ℕ → Option Text → FlipRun
unfolding attempt_with
attempts send command zero attempt last_error = record {
  states = idle ∷ [];
  sent = [];
  delays = [];
  result = some (or_failed last_error);
}
attempts send command (suc left) attempt last_error =
    attempt_with command attempt (send attempt command)
      (attempts send command left (attempt + 1) (send attempt command))

unfoldable pub execute_bazaar_flip : (ℕ → Text → Option Text) → Text → FlipRun
unfolding attempts
execute_bazaar_flip send command = attempts send command max_order_placement_retries 1 none

unfoldable pub handle_bazaar_flip_recommendation :
    (Text → Text)
    → (ℕ → Text → Option Text)
    → BazaarFlipHandler
    → BazaarFlipRecommendation
    → BotState
    → FlipRun
unfolding execute_bazaar_flip is_enabled
handle_bazaar_flip_recommendation to_title_case send s r state =
    if not (is_enabled s)
    then quiet
    else if is_startup state
    then quiet
    else execute_bazaar_flip send (order_command to_title_case r)
