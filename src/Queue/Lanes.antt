-- ===== src/Queue/Lanes.antt =====
-- src/state/command_queue.rs: the queue as four first-in-first-out lanes, one for each priority.
-- `Lanes` is what the queue promises: `enqueue` adds to the end of a lane and trims the whole,
-- `start_current` serves the first lane that has a command.
use escrow.Common.{
  ℕ, suc, ◌<◌, ◌≡◌, refl, sym, ap, ◌∙◌, inl, inr, Bool, Option, none, some, List, [], ◌∷◌, ◌++◌,
  arith, ltb, ◌==◌, if◌then◌else◌, Bool-cases, retain, length,
}
use mathlib.Core.List.{append-nil}
use mathlib.Core.Path.{◌≡⟨◌⟩◌, ◌∎}
use escrow.Types.{
  QueuedCommand, CommandPriority, critical, high, normal, low, Uuid, Instant, CommandType,
}
use escrow.Queue.{CommandQueue, insert, push, enqueue, start_current, pending_claim}
use escrow.Queue.Order.{
  level, NoneBefore, IsSorted, insert_before, insert-insert_before, insert-IsSorted,
}
use escrow.Queue.Trim.{trimmed, trim-trimmed}

-- The commands of one priority, in their order.
abbrev pub lane : ℕ → List QueuedCommand → List QueuedCommand
lane n = retain (λ c. level c == n)

-- Commands that all go later are in no earlier lane.
lane_empty : (m n : ℕ) (q : List QueuedCommand) → m < n → NoneBefore n q → lane m q ≡ []
lane_empty m n [] h b = refl
lane_empty m n (c ∷ cs) h b = ground (arith, lane_empty m n cs h b.1)

lane-insert_before :
    (n : ℕ) (c : QueuedCommand) (q : List QueuedCommand)
    → IsSorted q
    → lane n (insert_before c q) ≡ (if level c == n then lane n q ++ c ∷ [] else lane n q)
unfolding insert_before
lane-insert_before n c [] s = ground arith
lane-insert_before n c (x ∷ xs) s = elim (Bool-cases (ltb (level c) (level x))) [
  | inl e ↦
      rw e
        (ground (arith, lane_empty (level c) (level x) (x ∷ xs) (ground arith) (ground arith, s.0)))
  | inr e ↦ rw e (ground (arith, lane-insert_before n c xs s.1))
]

-- A new command goes to the end of its lane, and the other lanes stay as they are.
pub lane-insert :
    (n : ℕ) (c : QueuedCommand) (q : List QueuedCommand)
    → IsSorted q
    → lane n (insert c q) ≡ (if level c == n then lane n q ++ c ∷ [] else lane n q)
lane-insert n c q s = rw (insert-insert_before c q) (lane-insert_before n c q s)

-- The commands that go no earlier than `n`.
from_level : ℕ → List QueuedCommand → List QueuedCommand
from_level n = retain (λ c. ltb n (suc (level c)))

from_level_split :
    (n : ℕ) (q : List QueuedCommand)
    → IsSorted q
    → from_level n q ≡ lane n q ++ from_level (suc n) q
unfolding from_level
from_level_split n [] s = refl
from_level_split n (c ∷ cs) s = ground (arith, from_level_split n cs s.1, lane_empty n (level c) cs)

from_level_one : (q : List QueuedCommand) → from_level 1 q ≡ q
unfolding from_level
from_level_one [] = refl
from_level_one (c ∷ cs) = ground (arith, from_level_one cs)

from_level_five : (q : List QueuedCommand) → from_level 5 q ≡ []
unfolding from_level
from_level_five [] = refl
from_level_five (c ∷ cs) = ground (arith, from_level_five cs)

-- A sorted queue is its four lanes, one behind another.
pub lanes_eq :
    (q : List QueuedCommand) → IsSorted q → q ≡ lane 1 q ++ (lane 2 q ++ (lane 3 q ++ lane 4 q))
lanes_eq q s =
    q
    ≡⟨ sym (from_level_one q) ⟩ from_level 1 q
    ≡⟨ from_level_split 1 q s ⟩ lane 1 q ++ from_level 2 q
    ≡⟨ ap (◌++◌ (lane 1 q)) (from_level_split 2 q s) ⟩ lane 1 q ++ (lane 2 q ++ from_level 3 q)
    ≡⟨ (rw (from_level_split 3 q s, from_level_split 4 q s, from_level_five q, append-nil)) ⟩
      lane 1 q ++ (lane 2 q ++ (lane 3 q ++ lane 4 q)) ∎

pub record Lanes : Type 0 where
  pub critical_lane : List QueuedCommand
  pub high_lane : List QueuedCommand
  pub normal_lane : List QueuedCommand
  pub low_lane : List QueuedCommand

abbrev pub view : List QueuedCommand → Lanes
view q = record {
  critical_lane = lane 1 q;
  high_lane = lane 2 q;
  normal_lane = lane 3 q;
  low_lane = lane 4 q;
}

abbrev pub flatten : Lanes → List QueuedCommand
flatten l = l.critical_lane ++ (l.high_lane ++ (l.normal_lane ++ l.low_lane))

-- A command goes behind the others of its priority.
abbrev pub add : CommandPriority → QueuedCommand → Lanes → Lanes
add critical c l = record l { critical_lane = l.critical_lane ++ c ∷ [] }
add high c l = record l { high_lane = l.high_lane ++ c ∷ [] }
add normal c l = record l { normal_lane = l.normal_lane ++ c ∷ [] }
add low c l = record l { low_lane = l.low_lane ++ c ∷ [] }

view-insert :
    (c : QueuedCommand) (q : List QueuedCommand)
    → IsSorted q
    → view (insert c q) ≡ add c.priority c (view q)
view-insert c q s =
    ground
      (arith, lane-insert 1 c q s, lane-insert 2 c q s, lane-insert 3 c q s, lane-insert 4 c q s)

-- What `enqueue` builds of its arguments.
abbrev pub command : Uuid → Instant → CommandType → CommandPriority → Bool → QueuedCommand
command id now t p i = record {
  id = id;
  priority = p;
  command_type = t;
  queued_at = now;
  interruptible = i;
}

insert_lanes :
    (c : QueuedCommand) (q : List QueuedCommand)
    → IsSorted q
    → insert c q ≡ flatten (add c.priority c (view q))
insert_lanes c q s = lanes_eq (insert c q) (insert-IsSorted c q s) ∙ ap flatten (view-insert c q s)

pub push-trimmed :
    (s : CommandQueue) (c : QueuedCommand)
    → push s c ≡ record s { queue = trimmed (insert c s.queue) }
unfolding push
push-trimmed s c = rw (trim-trimmed (length (insert c s.queue)) (insert c s.queue) (omega arith))

-- Where no pending claim takes its place, a command of a sorted queue goes to the end of the lane
-- of its priority; the lanes, one behind another, are then trimmed, the executing command stays as
-- it is, and the new command's own id is returned.
pub enqueue-lanes :
    (s : CommandQueue) (id : Uuid) (now : Instant) (t : CommandType) (p : CommandPriority)
    (i : Bool)
    → IsSorted s.queue
    → pending_claim t s.queue ≡ none
    → enqueue s id now t p i
      ≡ (record s { queue = trimmed (flatten (add p (command id now t p i) (view s.queue))) }, id)
unfolding enqueue
enqueue-lanes s id now t p i o e = rw (
  e,
  enqueue,
  push-trimmed s (command id now t p i),
  insert_lanes (command id now t p i) s.queue o,
)

-- The first command of the first lane that has one, and the lanes without it.
abbrev pub serve : Lanes → Option (QueuedCommand × Lanes)
serve l = elim l.critical_lane [
  | c ∷ cs ↦ some (c, record l { critical_lane = cs })
  | [] ↦ elim l.high_lane [
    | c ∷ cs ↦ some (c, record l { high_lane = cs })
    | [] ↦ elim l.normal_lane [
      | c ∷ cs ↦ some (c, record l { normal_lane = cs })
      | [] ↦ elim l.low_lane [ c ∷ cs ↦ some (c, record l { low_lane = cs }) | [] ↦ none ]
    ]
  ]
]

abbrev pub seen : CommandQueue × Option QueuedCommand → Option (QueuedCommand × Lanes)
seen (s, r) = elim r [ none ↦ none | some c ↦ some (c, view s.queue) ]

-- The executing command after a start.
abbrev pub started : Option QueuedCommand → Option QueuedCommand → Option QueuedCommand
started none cur = cur
started (some c) cur = some c

serve_head :
    (c : QueuedCommand) (cs : List QueuedCommand)
    → IsSorted (c ∷ cs)
    → serve (view (c ∷ cs)) ≡ some (c, view cs)
serve_head c cs s =
    ground (arith, lane_empty 1 (level c) cs, lane_empty 2 (level c) cs, lane_empty 3 (level c) cs)

start_current_cases :
    (q : List QueuedCommand) (cur : Option QueuedCommand)
    → IsSorted q
    → let r = start_current (record { queue = q; current_command = cur }) in
      (seen r ≡ serve (view q)) × (r.0.current_command ≡ started r.1 cur)
unfolding start_current
start_current_cases [] cur s = (refl, refl)
start_current_cases (c ∷ cs) cur s = (sym (serve_head c cs s), refl)

-- On a sorted queue `start_current` returns what the lanes serve and leaves the other commands in
-- their lanes; the served command becomes the executing one, and where there is none the executing
-- one stays.
pub start_current-lanes :
    (s : CommandQueue)
    → IsSorted s.queue
    → (seen (start_current s) ≡ serve (view s.queue))
      × ((start_current s).0.current_command ≡ started (start_current s).1 s.current_command)
start_current-lanes s o = start_current_cases s.queue s.current_command o
