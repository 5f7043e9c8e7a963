-- ===== src/Queue/Observe.antt =====
-- src/state/command_queue.rs: what the reading methods say of the queue: `peek` and the removal of
-- stale bazaar orders, `contains_command_id` over a command's life, and the panel's snapshot.
use escrow.Common.{
  suc, ◌≡◌, refl, ap, sym, Bool, false, not, Option, none, some, List, [], ◌∷◌, arith, retain,
  length, any, count, head?, ◌==◌, drop, if◌then◌else◌, is_some, map, length-map,
}
use mathlib.Core.Path.{subst}
use escrow.Types.{Uuid, Instant, QueuedCommand}
use escrow.Queue.{
  CommandQueue, QueueEntry, peek, start_current, complete_current, is_stale, contains_command_id,
  queue_snapshot, is_empty, len, entry,
}

module _ {ℓ} {A : Type ℓ} (p : A → Bool) where
  any-retain-not : (xs : List A) → any p (retain (λ x. not (p x)) xs) ≡ false
  any-retain-not [] = refl
  any-retain-not (x ∷ xs) = ground (arith, any-retain-not xs)

  retain_twice : (xs : List A) → retain p (retain p xs) ≡ retain p xs
  retain_twice [] = refl
  retain_twice (x ∷ xs) = ground (arith, retain_twice xs)

abbrev state_of : List QueuedCommand → Option QueuedCommand → CommandQueue
state_of q cur = record { queue = q; current_command = cur }

-- What a look at the queue sees: the executing command and an unchanged queue; or, with none
-- executing, the first of the waiting commands, none of which is a stale bazaar order any more,
-- while all that are not stale are still there, in their order.
abbrev pub Peeked : CommandQueue → Instant → CommandQueue × Option QueuedCommand → Type 0
Peeked s now r = elim s.current_command [
  | some c ↦ (r.0 ≡ s) × (r.1 ≡ some c)
  | none ↦
      (any (is_stale now) r.0.queue ≡ false)
      × (retain (λ c. not (is_stale now c)) r.0.queue ≡ retain (λ c. not (is_stale now c)) s.queue)
      × (r.1 ≡ head? r.0.queue)
      × (r.0.current_command ≡ none)
]

peek_cases :
    (q : List QueuedCommand) (cur : Option QueuedCommand) (now : Instant)
    → let s = state_of q cur in Peeked s now (peek s now)
unfolding peek
peek_cases q (some c) now = (refl, refl)
peek_cases q none now =
    (any-retain-not (is_stale now) q, retain_twice (λ c. not (is_stale now c)) q, refl, refl)

-- `peek` returns the executing command and leaves the queue alone; with none executing, it takes
-- out the bazaar orders that waited for more than 60 seconds and no other command, and returns the
-- first of the rest.
pub peek-Peeked : (s : CommandQueue) (now : Instant) → Peeked s now (peek s now)
peek-Peeked s now = peek_cases s.queue s.current_command now

start_current-contains_cases :
    (q : List QueuedCommand) (id : Uuid)
    → let s = state_of q none in
      (contains_command_id (start_current s).0 id ≡ contains_command_id s id)
      × (contains_command_id (complete_current (start_current s).0) id
          ≡ any (λ c. c.id == id) (drop 1 q))
unfolding start_current contains_command_id complete_current
start_current-contains_cases [] id = (refl, refl)
start_current-contains_cases (c ∷ cs) id = (ground arith, refl)

-- A command counts as contained while it waits and while it executes: with none executing,
-- starting the first one changes no answer, and once that one is completed the answers are those of
-- the commands that waited behind it.
pub contains_command_id-start_current :
    (s : CommandQueue) (id : Uuid)
    → s.current_command ≡ none
    → (contains_command_id (start_current s).0 id ≡ contains_command_id s id)
      × (contains_command_id (complete_current (start_current s).0) id
          ≡ any (λ c. c.id == id) (drop 1 s.queue))
contains_command_id-start_current s id e =
    subst
      (λ cur.
        (contains_command_id (start_current (state_of s.queue cur)).0 id
          ≡ contains_command_id (state_of s.queue cur) id)
        × (contains_command_id (complete_current (start_current (state_of s.queue cur)).0) id
            ≡ any (λ c. c.id == id) (drop 1 s.queue)))
      (sym e) (start_current-contains_cases s.queue id)

count_waiting :
    (now : Instant) (q : List QueuedCommand)
    → count (λ (e : QueueEntry). not e.executing) (map (entry now false) q) ≡ length q
unfolding entry
count_waiting now [] = refl
count_waiting now (c ∷ cs) = ap suc (count_waiting now cs)

count_executing :
    (now : Instant) (q : List QueuedCommand)
    → count (λ (e : QueueEntry). e.executing) (map (entry now false) q) ≡ 0
unfolding entry
count_executing now [] = refl
count_executing now (c ∷ cs) = count_executing now cs

snapshot_cases :
    (q : List QueuedCommand) (cur : Option QueuedCommand) (now : Instant)
    → let s = state_of q cur in
      let entries = queue_snapshot s now in
      (count (λ (e : QueueEntry). not e.executing) entries ≡ len s)
      × (count (λ (e : QueueEntry). e.executing) entries ≡ (if is_some cur then 1 else 0))
      × (is_empty s ≡ (length entries == 0))
unfolding queue_snapshot len is_empty
snapshot_cases q none now =
    (count_waiting now q, count_executing now q, ground (arith, length-map (entry now false) q))
snapshot_cases q (some c) now = (count_waiting now q, ap suc (count_executing now q), ground arith)

-- The panel's snapshot has an entry for each waiting command and one for the executing command if
-- there is one, marked apart, and it has no entry exactly when the queue is empty.
pub queue_snapshot_entries :
    (s : CommandQueue) (now : Instant)
    → let entries = queue_snapshot s now in
      (count (λ (e : QueueEntry). not e.executing) entries ≡ len s)
      × (count (λ (e : QueueEntry). e.executing) entries
          ≡ (if is_some s.current_command then 1 else 0))
      × (is_empty s ≡ (length entries == 0))
queue_snapshot_entries s now = snapshot_cases s.queue s.current_command now
