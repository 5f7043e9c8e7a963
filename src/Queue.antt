-- ===== src/Queue.antt =====
-- src/state/command_queue.rs: the priority queue of the commands that the bot executes. A method
-- takes the queue and returns the new one; the clock's reading and the fresh id are arguments.
-- A method that takes one lock is one step; `enqueue` looks for a pending claim under the read lock and
-- writes under the write lock, so its two halves are functions of their own, which Reach interleaves.
-- The wake-up handle is the runtime's and is left out.
pub mod Order
pub mod Trim
pub mod Lanes
pub mod Claims
pub mod Reach
pub mod Observe
mod Examples
use escrow.Common.{
  ℕ, zero, suc, ◌-◌, ◌/◌, ◌%◌, Bool, true, false, not, ◌&&◌, Option, none, some, List, [], ◌∷◌, map,
  Text, codes, ltb, ◌==◌, if◌then◌else◌, is_some, or_else, head?, length, retain, any, find,
  remove_last, u64_mod,
}
use mathlib.Core.Option
use escrow.Types.{
  Uuid, Instant, CommandPriority, critical, high, normal, low, discriminant, CommandType,
  QueuedCommand, display_name, bazaar_buy_order, bazaar_sell_order, purchase_auction,
  claim_sold_item, claim_purchased_item, sell_to_auction, manage_orders,
}

pub record CommandQueue : Type 0 where
  pub queue : List QueuedCommand
  pub current_command : Option QueuedCommand

abbrev pub max_queue_size : ℕ
max_queue_size = 5

-- 60 seconds, in nanoseconds.
abbrev pub bazaar_recommendation_max_age : Instant
bazaar_recommendation_max_age = 60_000_000_000

unfoldable pub new : CommandQueue
new = record { queue = []; current_command = none }

-- The `matches!` tests.
abbrev pub is_claim_purchased : CommandType → Bool
is_claim_purchased claim_purchased_item = true
is_claim_purchased _ = false

abbrev pub is_claim_sold : CommandType → Bool
is_claim_sold claim_sold_item = true
is_claim_sold _ = false

abbrev pub is_purchase_auction : CommandType → Bool
is_purchase_auction (purchase_auction _) = true
is_purchase_auction _ = false

abbrev pub is_manage_orders : CommandType → Bool
is_manage_orders (manage_orders _ _) = true
is_manage_orders _ = false

abbrev pub is_bazaar_order : CommandType → Bool
is_bazaar_order (bazaar_buy_order _) = true
is_bazaar_order (bazaar_sell_order _) = true
is_bazaar_order _ = false

-- The commands that the trimming loop may drop.
abbrev pub is_droppable_type : CommandType → Bool
is_droppable_type (bazaar_sell_order _) = false
is_droppable_type (sell_to_auction _ _ _ _ _ _) = false
is_droppable_type (manage_orders _ _) = false
is_droppable_type (purchase_auction _) = false
is_droppable_type _ = true

abbrev pub has_type : (CommandType → Bool) → QueuedCommand → Bool
has_type t c = t c.command_type

abbrev pub is_droppable : QueuedCommand → Bool
is_droppable = has_type is_droppable_type

-- `iter().position(p).unwrap_or(len)` and `VecDeque::insert`.
abbrev pub position_or_len : (QueuedCommand → Bool) → List QueuedCommand → ℕ
position_or_len p [] = 0
position_or_len p (x ∷ xs) = if p x then 0 else suc (position_or_len p xs)

abbrev pub insert_at : ℕ → QueuedCommand → List QueuedCommand → List QueuedCommand
insert_at zero c xs = c ∷ xs
insert_at (suc i) c [] = c ∷ []
insert_at (suc i) c (x ∷ xs) = x ∷ insert_at i c xs

unfoldable pub insert : QueuedCommand → List QueuedCommand → List QueuedCommand
insert c q =
    insert_at (position_or_len (λ x. ltb (discriminant c.priority) (discriminant x.priority)) q) c q

-- One round of the loop's body: `none` is the `break`.
abbrev pub drop_one : List QueuedCommand → Option (List QueuedCommand)
drop_one q = elim (remove_last is_droppable q) [ none ↦ none | some (_, rest) ↦ some rest ]

-- `while queue.len() > MAX_QUEUE_SIZE`, on fuel: each round takes one command out.
unfoldable pub trim : ℕ → List QueuedCommand → List QueuedCommand
trim zero q = q
trim (suc fuel) q = elim (ltb max_queue_size (length q)) [
  | false ↦ q
  | true ↦ elim (drop_one q) [ none ↦ q | some rest ↦ trim fuel rest ]
]

-- What happens under the write lock: `cmd` is inserted and the excess is trimmed.
unfoldable pub push : CommandQueue → QueuedCommand → CommandQueue
unfolding insert trim
push s cmd = let q = insert cmd s.queue in record s { queue = trim (length q) q }

-- What happens under the read lock: `find(..)` on the pending claims, for a claim only.
abbrev pub pending_claim : CommandType → List QueuedCommand → Option QueuedCommand
pending_claim t q = if is_claim_purchased t then find (has_type is_claim_purchased) q else none

-- A call that no other call interrupts.
unfoldable pub enqueue :
    CommandQueue → Uuid → Instant → CommandType → CommandPriority → Bool → CommandQueue × Uuid
unfolding push
enqueue s id now command_type priority interruptible = elim (pending_claim command_type s.queue) [
  | some existing ↦ (s, existing.id)
  | none ↦ (
    push s (record {
      id = id;
      priority = priority;
      command_type = command_type;
      queued_at = now;
      interruptible = interruptible;
    }),
    id,
  )
]

-- `duration_since` stops at zero, as `-` does.
abbrev pub is_stale : Instant → QueuedCommand → Bool
is_stale now c =
    is_bazaar_order c.command_type && ltb bazaar_recommendation_max_age (now - c.queued_at)

unfoldable pub remove_stale_commands : CommandQueue → Instant → CommandQueue
remove_stale_commands s now = record s { queue = retain (λ c. not (is_stale now c)) s.queue }

unfoldable pub peek : CommandQueue → Instant → CommandQueue × Option QueuedCommand
unfolding remove_stale_commands
peek s now = elim s.current_command [
  | some current ↦ (s, some current)
  | none ↦ let s' = remove_stale_commands s now in (s', head? s'.queue)
]

unfoldable pub start_current : CommandQueue → CommandQueue × Option QueuedCommand
start_current s = elim s.queue [
  | [] ↦ (s, none)
  | cmd ∷ rest ↦ (record { queue = rest; current_command = some cmd }, some cmd)
]

unfoldable pub complete_current : CommandQueue → CommandQueue
complete_current s = record s { current_command = none }

unfoldable pub can_interrupt_current : CommandQueue → Bool
can_interrupt_current s = or_else (Option.map (λ c. c.interruptible) s.current_command) true

unfoldable pub interrupt_current : CommandQueue → CommandQueue
interrupt_current s = record s { current_command = none }

unfoldable pub peek_queued : CommandQueue → Option QueuedCommand
peek_queued s = head? s.queue

unfoldable pub clear_bazaar_orders : CommandQueue → CommandQueue
clear_bazaar_orders s = record s {
  queue = retain (λ c. not (is_bazaar_order c.command_type)) s.queue;
}

unfoldable pub clear : CommandQueue → CommandQueue
clear s = record s { queue = [] }

unfoldable pub len : CommandQueue → ℕ
len s = length s.queue

-- The executing command, tested by `p`.
abbrev pub current_is : (QueuedCommand → Bool) → CommandQueue → Bool
current_is p s = elim s.current_command [ none ↦ false | some cur ↦ p cur ]

unfoldable pub has_manage_orders : CommandQueue → Bool
has_manage_orders s =
    if current_is (has_type is_manage_orders) s
    then true
    else any (has_type is_manage_orders) s.queue

unfoldable pub has_claim_sold : CommandQueue → Bool
has_claim_sold s =
    if current_is (has_type is_claim_sold) s then true else any (has_type is_claim_sold) s.queue

unfoldable pub has_purchase_auction : CommandQueue → Bool
has_purchase_auction s =
    if current_is (has_type is_purchase_auction) s
    then true
    else any (has_type is_purchase_auction) s.queue

unfoldable pub is_empty : CommandQueue → Bool
is_empty s = (length s.queue == 0) && not (is_some s.current_command)

unfoldable pub contains_command_id : CommandQueue → Uuid → Bool
contains_command_id s id =
    if current_is (λ c. c.id == id) s then true else any (λ c. c.id == id) s.queue

pub record QueueEntry : Type 0 where
  pub display_name : Text
  pub priority : Text
  pub age_ms : ℕ
  pub executing : Bool

-- The derived `Debug` text of a priority.
abbrev pub priority_text : CommandPriority → Text
priority_text critical = codes "Critical"
priority_text high = codes "High"
priority_text normal = codes "Normal"
priority_text low = codes "Low"

unfoldable pub entry : Instant → Bool → QueuedCommand → QueueEntry
entry now executing c = record {
  display_name = display_name c.command_type;
  priority = priority_text c.priority;
  age_ms = (now - c.queued_at) / 1_000_000 % u64_mod;
  executing = executing;
}

unfoldable pub queue_snapshot : CommandQueue → Instant → List QueueEntry
unfolding entry
queue_snapshot s now = elim s.current_command [
  | none ↦ map (entry now false) s.queue
  | some cur ↦ entry now true cur ∷ map (entry now false) s.queue
]
