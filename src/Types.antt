-- ===== src/Types.antt =====
-- src/types.rs: the bot's states, the commands it executes, their priorities, and the entry of
-- the command queue. An `f64` that is only stored and handed on is its 64-bit pattern; a `Uuid`
-- is its 128-bit value; an `Instant` is a number of nanoseconds since a fixed start.
use escrow.Common.{ℕ, Bool, true, false, Option, Text, codes, ℤ}

abbrev pub F64 : Type 0
F64 = ℕ

abbrev pub Uuid : Type 0
Uuid = ℕ

abbrev pub Instant : Type 0
Instant = ℕ

pub record Flip : Type 0 where
  pub item_name : Text
  pub starting_bid : ℕ
  pub target : ℕ
  pub finder : Option Text
  pub profit_perc : Option F64
  pub purchase_at_ms : Option ℤ
  pub uuid : Option Text
  pub list_at : Option ℕ

pub data BotState : Type 0 where
  startup idle purchasing bazaar selling claiming grace_period claiming_purchased : BotState
  claiming_sold managing_orders checking_cookie buying_cookie insta_selling : BotState
  cancelling_auction selling_inventory_bz : BotState

-- `matches!(self, Idle | GracePeriod)`.
unfoldable pub allows_commands : BotState → Bool
allows_commands idle = true
allows_commands grace_period = true
allows_commands _ = false

pub data CommandPriority : Type 0 where
  critical high normal low : CommandPriority

-- The discriminants, which give the derived order.
abbrev pub discriminant : CommandPriority → ℕ
discriminant critical = 1
discriminant high = 2
discriminant normal = 3
discriminant low = 4

pub record BazaarOrderTarget : Type 0 where
  pub item_name : Text
  pub is_buy : Bool
  pub price_per_unit : Option F64

-- The payload of a bazaar order.
pub record BazaarOrder : Type 0 where
  pub item_name : Text
  pub item_tag : Option Text
  pub amount : ℕ
  pub price_per_unit : F64

pub data CommandType : Type 0 where
  bazaar_buy_order : BazaarOrder → CommandType
  bazaar_sell_order : BazaarOrder → CommandType
  purchase_auction : Flip → CommandType
  send_chat : (message : Text) → CommandType
  claim_sold_item claim_purchased_item check_cookie discover_orders execute_orders : CommandType
  sell_to_auction :
      (item_name : Text) (starting_bid duration_hours : ℕ) (expected_profit : Option ℤ)
      (item_slot : Option ℕ) (item_id : Option Text)
      → CommandType
  manage_orders : (cancel_open : Bool) (target_item : Option BazaarOrderTarget) → CommandType
  click_slot : (slot : ℤ) → CommandType
  swap_profile : (profile_name : Text) → CommandType
  accept_trade : (player_name : Text) → CommandType
  cancel_auction : (item_name : Text) (starting_bid : ℤ) → CommandType
  sell_inventory_bz go_to_island : CommandType

pub record QueuedCommand : Type 0 where
  pub id : Uuid
  pub priority : CommandPriority
  pub command_type : CommandType
  pub queued_at : Instant
  pub interruptible : Bool

unfoldable pub display_name : CommandType → Text
display_name (bazaar_buy_order _) = codes "bazaar buy order"
display_name (bazaar_sell_order _) = codes "bazaar sell order"
display_name (purchase_auction _) = codes "purchasing flip"
display_name (send_chat _) = codes "chat command"
display_name claim_sold_item = codes "claiming sold item"
display_name claim_purchased_item = codes "claiming purchased item"
display_name check_cookie = codes "checking cookie"
display_name discover_orders = codes "discovering orders"
display_name execute_orders = codes "executing orders"
display_name (sell_to_auction _ _ _ _ _ _) = codes "selling to auction"
display_name (manage_orders _ _) = codes "managing orders"
display_name (click_slot _) = codes "clicking slot"
display_name (swap_profile _) = codes "swapping profile"
display_name (accept_trade _) = codes "accepting trade"
display_name (cancel_auction _ _) = codes "cancelling auction"
display_name sell_inventory_bz = codes "selling inventory via bazaar"
display_name go_to_island = codes "returning to island"
