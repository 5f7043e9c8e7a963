-- ===== src/Queue/Claims.antt =====
-- src/state/command_queue.rs: which commands `enqueue` keeps, and the one pending purchase claim.
use escrow.Common.{
  ◌≤◌, ◌<◌, ◌≡◌, ◌∙◌, ◌⊎◌, inl, inr, Bool, true, false, ◌&&◌, ◌-◌, none, some, List, arith, ◌==◌,
  if◌then◌else◌, Option-cases, retain, length, any, find, count, find-any_of, find-any, count-any,
  count-keep_first, any-keep_first, any-retain_of, retain-keep_first, ==_refl, keep_first_all,
  count_split,
}
use escrow.Types.{Uuid, Instant, CommandPriority, CommandType, QueuedCommand}
use escrow.Queue.{
  CommandQueue, is_claim_purchased, is_droppable, is_droppable_type, has_type, insert, enqueue,
  pending_claim, contains_command_id,
}
use escrow.Queue.Order.{IsSorted, retain-insert, any-insert, count-insert, length-insert}
use escrow.Queue.Trim.{trimmed, is_essential}
use escrow.Queue.Lanes.{command, push-trimmed}

-- Where no pending claim takes its place, the new command is pushed.
pub enqueue-push :
    (s : CommandQueue) (id : Uuid) (now : Instant) (t : CommandType) (p : CommandPriority)
    (i : Bool)
    → pending_claim t s.queue ≡ none
    → enqueue s id now t p i
      ≡ (record s { queue = trimmed (insert (command id now t p i) s.queue) }, id)
unfolding enqueue
enqueue-push s id now t p i e = rw (e, enqueue, push-trimmed s (command id now t p i))

pub enqueue-pending :
    (s : CommandQueue) (id : Uuid) (now : Instant) (t : CommandType) (p : CommandPriority)
    (i : Bool) (c : QueuedCommand)
    → pending_claim t s.queue ≡ some c
    → enqueue s id now t p i ≡ (s, c.id)
unfolding enqueue
enqueue-pending s id now t p i c e = rw (e, enqueue)

pending_claim-claims :
    (t : CommandType) (q : List QueuedCommand) (c : QueuedCommand)
    → pending_claim t q ≡ some c
    → (is_claim_purchased t ≡ true) × (find (has_type is_claim_purchased) q ≡ some c)
pending_claim-claims t q c e = ground arith

claim_droppable : (t : CommandType) → is_claim_purchased t ≡ true → is_droppable_type t ≡ true
claim_droppable t h = ground arith

-- The essential commands of a sorted queue all stay, in their order, whatever is enqueued; the new
-- command is among them if it is essential.
pub enqueue-keeps_essential :
    (s : CommandQueue) (id : Uuid) (now : Instant) (t : CommandType) (p : CommandPriority)
    (i : Bool)
    → IsSorted s.queue
    → let c = command id now t p i in
      let kept = retain is_essential s.queue in
      retain is_essential (enqueue s id now t p i).0.queue
      ≡ (if is_essential c then insert c kept else kept)
enqueue-keeps_essential s id now t p i o = elim (Option-cases (pending_claim t s.queue)) [
  | inl e ↦ rw (enqueue-push s id now t p i e) (
      retain-keep_first is_droppable _ (insert (command id now t p i) s.queue)
      ∙ retain-insert is_essential (command id now t p i) s.queue o)
  | inr (c, e) ↦
      rw (enqueue-pending s id now t p i c e)
        (ground (arith, claim_droppable t, pending_claim-claims t s.queue c e))
]

contains_queued :
    (s : CommandQueue) (id : Uuid)
    → any (λ c. c.id == id) s.queue ≡ true
    → contains_command_id s id ≡ true
unfolding contains_command_id
contains_queued s id h = ground arith

-- A command that the trimming spares is found by its id.
trimmed_contains :
    (c : QueuedCommand) (q : List QueuedCommand)
    → (length q < 5) ⊎ (is_droppable c ≡ false)
    → any (λ x. x.id == c.id) (trimmed (insert c q)) ≡ true
trimmed_contains c q (inl room) = rw (
  keep_first_all is_droppable (5 - count is_essential (insert c q)) (insert c q)
      (omega (arith, count_split is_droppable (insert c q), length-insert c q)),
  any-insert (λ x. x.id == c.id) c q,
  ==_refl c.id,
)
trimmed_contains c q (inr essential) =
    any-keep_first is_droppable (λ x. x.id == c.id) _ (insert c q)
      (any-retain_of is_essential (λ x. x.id == c.id) (insert c q)
        (rw (any-insert (λ x. is_essential x && (x.id == c.id)) c q, essential, ==_refl c.id)))

-- The id that `enqueue` returns is that of a command in the queue, if there was room for one more
-- or the command is essential.
pub enqueue-contains :
    (s : CommandQueue) (id : Uuid) (now : Instant) (t : CommandType) (p : CommandPriority)
    (i : Bool)
    → (length s.queue < 5) ⊎ (is_droppable_type t ≡ false)
    → let r = enqueue s id now t p i in contains_command_id r.0 r.1 ≡ true
enqueue-contains s id now t p i h = elim (Option-cases (pending_claim t s.queue)) [
  | inl e ↦
      rw (enqueue-push s id now t p i e)
        (contains_queued _ id (trimmed_contains (command id now t p i) s.queue h))
  | inr (c, e) ↦ rw (enqueue-pending s id now t p i c e) (
      contains_queued s c.id (
        find-any_of (has_type is_claim_purchased) (λ x. x.id == c.id) s.queue c
          (pending_claim-claims t s.queue c e).1 (==_refl c.id)))
]

-- At most one purchase claim waits in the queue.
abbrev pub OneClaim : List QueuedCommand → Type 0
OneClaim q = count (has_type is_claim_purchased) q ≤ 1

pub enqueue-OneClaim :
    (s : CommandQueue) (id : Uuid) (now : Instant) (t : CommandType) (p : CommandPriority)
    (i : Bool)
    → OneClaim s.queue
    → OneClaim (enqueue s id now t p i).0.queue
enqueue-OneClaim s id now t p i h = elim (Option-cases (pending_claim t s.queue)) [
  | inl e ↦
      let c = command id now t p i in
      rw (enqueue-push s id now t p i e) (
        ground (
          arith,
          count-keep_first is_droppable (has_type is_claim_purchased)
              (5 - count is_essential (insert c s.queue)) (insert c s.queue),
          count-insert (has_type is_claim_purchased) c s.queue,
          count-any (has_type is_claim_purchased) s.queue,
          find-any (has_type is_claim_purchased) s.queue,
        ))
  | inr (c, e) ↦ rw (enqueue-pending s id now t p i c e) h
]
