-- ===== src/Queue/Reach.antt =====
-- src/state/command_queue.rs: the methods as steps of the processor loop, the intake and the panel
-- in any order, and the invariant of every queue that they reach.
use escrow.Common.{
  ℕ, ◌+◌, ◌-◌, ◌≤◌, ◌<◌, ◌≡◌, ◌⊎◌, inl, inr, Bool, not, Option, none, some, List, [], ◌∷◌, ◌++◌,
  arith, retain, length, any, count, length-append, length-retain-le, count-retain-le,
  count-keep_first, count-any, find-any, any-retain, Bool-cases,
}
use escrow.Types.{Uuid, Instant, CommandPriority, CommandType, QueuedCommand}
use escrow.Queue.{
  CommandQueue, new, push, remove_stale_commands, start_current, complete_current,
  interrupt_current, clear_bazaar_orders, clear, is_stale, is_droppable, pending_claim,
  is_claim_purchased, has_type, is_bazaar_order, insert,
}
use escrow.Queue.Order.{
  IsSorted, insert-IsSorted, retain-IsSorted, keep_first-IsSorted, count-insert,
}
use escrow.Queue.Trim.{WithinLimit, trim-WithinLimit, trim-trimmed, is_essential}
use escrow.Queue.Lanes.{command, push-trimmed}

-- `writing` holds the commands whose callers have found no pending claim and have not written yet.
pub record Shared : Type 0 where
  pub state : CommandQueue
  pub writing : List QueuedCommand

-- A step of one thread, where `n` callers at most are within `enqueue` at once.
pub data Step (n : ℕ) : Shared → Shared → Type 0 where
  collapses :
      (s : Shared) (t : CommandType) (c : QueuedCommand)
      → pending_claim t s.state.queue ≡ some c
      → Step n s s
  checks :
      (s : Shared) (id : Uuid) (now : Instant) (t : CommandType) (p : CommandPriority) (i : Bool)
      → pending_claim t s.state.queue ≡ none
      → length s.writing < n
      → Step n s (record s { writing = command id now t p i ∷ s.writing })
  writes :
      (s : CommandQueue) (before after : List QueuedCommand) (c : QueuedCommand)
      → Step n
          (record { state = s; writing = before ++ c ∷ after })
          (record { state = push s c; writing = before ++ after })
  removes_stale :
      (s : Shared) (now : Instant)
      → Step n s (record s { state = remove_stale_commands s.state now })
  starts : (s : Shared) → Step n s (record s { state = (start_current s.state).0 })
  completes : (s : Shared) → Step n s (record s { state = complete_current s.state })
  interrupts : (s : Shared) → Step n s (record s { state = interrupt_current s.state })
  clears_bazaar : (s : Shared) → Step n s (record s { state = clear_bazaar_orders s.state })
  clears : (s : Shared) → Step n s (record s { state = clear s.state })

pub data Reach (n : ℕ) : Shared → Type 0 where
  fresh : Reach n (record { state = new; writing = [] })
  next : {s t : Shared} → Reach n s → Step n s t → Reach n t

abbrev pub claims : List QueuedCommand → ℕ
claims q = count (has_type is_claim_purchased) q

pub record IsOrdered (s : CommandQueue) : Type 0 where
  pub sorted : IsSorted s.queue
  pub within_limit : WithinLimit s.queue

pub record Inv (n : ℕ) (s : Shared) : Type 0 where
  pub ordered : IsOrdered s.state
  pub few_callers : length s.writing ≤ n
  pub few_claims : claims s.state.queue + claims s.writing ≤ n

retain-WithinLimit :
    (p : QueuedCommand → Bool) (q : List QueuedCommand) → WithinLimit q → WithinLimit (retain p q)
retain-WithinLimit p q (inl h) = inl (omega (arith, length-retain-le p q))
retain-WithinLimit p q (inr h) = inr (elim (Bool-cases (any is_droppable (retain p q))) [
  | inl e ↦ cc (any-retain p is_droppable q e)
  | inr e ↦ e
])

-- Commands that are filtered away leave the order in place.
retain-IsOrdered :
    (p : QueuedCommand → Bool) (s : CommandQueue)
    → IsOrdered s
    → IsOrdered (record s { queue = retain p s.queue })
retain-IsOrdered p s v = record {
  sorted = retain-IsSorted p s.queue v.sorted;
  within_limit = retain-WithinLimit p s.queue v.within_limit;
}

push-IsOrdered : (s : CommandQueue) (c : QueuedCommand) → IsOrdered s → IsOrdered (push s c)
push-IsOrdered s c v =
    let q = insert c s.queue in
    rw (push-trimmed s c) (record {
      sorted = keep_first-IsSorted is_droppable _ _ (insert-IsSorted c s.queue v.sorted);
      within_limit =
          rw (← trim-trimmed (length q) q (omega arith))
            (trim-WithinLimit (length q) q (omega arith));
    })

start_current-IsOrdered :
    (q : List QueuedCommand) (cur : Option QueuedCommand)
    → IsOrdered (record { queue = q; current_command = cur })
    → IsOrdered (start_current (record { queue = q; current_command = cur })).0
unfolding start_current
start_current-IsOrdered [] cur v = v
start_current-IsOrdered (c ∷ cs) cur v = ground arith

claims-start_current :
    (q : List QueuedCommand) (cur : Option QueuedCommand)
    → claims (start_current (record { queue = q; current_command = cur })).0.queue ≤ claims q
unfolding start_current
claims-start_current [] cur = omega arith
claims-start_current (c ∷ cs) cur = ground arith

-- The write adds the command's own claim at most.
claims-push :
    (s : CommandQueue) (c : QueuedCommand) → claims (push s c).queue ≤ claims (c ∷ s.queue)
claims-push s c = rw (push-trimmed s c) (
    ground (
      arith,
      count-keep_first is_droppable (has_type is_claim_purchased)
          (5 - count is_essential (insert c s.queue)) (insert c s.queue),
      count-insert (has_type is_claim_purchased) c s.queue,
    ))

claims-append :
    (before after : List QueuedCommand) (c : QueuedCommand)
    → claims (before ++ c ∷ after) ≡ claims (before ++ after) + claims (c ∷ [])
claims-append [] after c = ground arith
claims-append (b ∷ before) after c = ground (arith, claims-append before after c)

claims-le : (q : List QueuedCommand) → claims q ≤ length q
claims-le [] = omega arith
claims-le (c ∷ q) = ground (arith, claims-le q)

-- A claim is checked only where none is pending.
claims-checked :
    (q : List QueuedCommand) (id : Uuid) (now : Instant) (t : CommandType) (p : CommandPriority)
    (i : Bool)
    → pending_claim t q ≡ none
    → (claims q ≡ 0) ⊎ (claims (command id now t p i ∷ []) ≡ 0)
claims-checked q id now t p i e = elim (Bool-cases (is_claim_purchased t)) [
  | inl c ↦ inl (
      ground (
        arith,
        c,
        count-any (has_type is_claim_purchased) q,
        find-any (has_type is_claim_purchased) q,
      ))
  | inr c ↦ inr (ground (arith, c))
]

checks-Inv :
    (n : ℕ) (s : Shared) (c : QueuedCommand)
    → (claims s.state.queue ≡ 0) ⊎ (claims (c ∷ []) ≡ 0)
    → length s.writing < n
    → Inv n s
    → Inv n (record s { writing = c ∷ s.writing })
checks-Inv n s c (inl e) h v = record {
  ordered = v.ordered;
  few_callers = omega arith;
  few_claims = omega (arith, e, claims-le (c ∷ s.writing));
}
checks-Inv n s c (inr e) h v = record {
  ordered = v.ordered;
  few_callers = omega arith;
  few_claims = ground (arith, e, v.few_claims);
}

-- A step of the queue alone.
moved-Inv :
    (n : ℕ) (s : Shared) (q : CommandQueue)
    → IsOrdered q
    → claims q.queue ≤ claims s.state.queue
    → Inv n s
    → Inv n (record s { state = q })
moved-Inv n s q o h v = record {
  ordered = o;
  few_callers = v.few_callers;
  few_claims = omega (arith, h, v.few_claims);
}

retained-Inv :
    (n : ℕ) (s : Shared) (p : QueuedCommand → Bool)
    → Inv n s
    → Inv n (record s { state = record s.state { queue = retain p s.state.queue } })
retained-Inv n s p v =
    moved-Inv n s (record s.state { queue = retain p s.state.queue })
      (retain-IsOrdered p s.state v.ordered)
      (count-retain-le p (has_type is_claim_purchased) s.state.queue) v

-- Every step keeps the invariant.
pub Step-Inv : {n : ℕ} {s t : Shared} → Step n s t → Inv n s → Inv n t
unfolding remove_stale_commands complete_current interrupt_current clear_bazaar_orders clear
Step-Inv (collapses s t c e) v = v
Step-Inv {n} (checks s id now t p i e h) v =
    checks-Inv n s (command id now t p i) (claims-checked s.state.queue id now t p i e) h v
Step-Inv (writes s before after c) v = record {
  ordered = push-IsOrdered s c v.ordered;
  few_callers =
      omega (arith, v.few_callers, length-append before after, length-append before (c ∷ after));
  few_claims = ground (arith, v.few_claims, claims-push s c, claims-append before after c);
}
Step-Inv {n} (removes_stale s now) v = retained-Inv n s (λ c. not (is_stale now c)) v
Step-Inv {n} (starts s) v =
    moved-Inv n s (start_current s.state).0
      (start_current-IsOrdered s.state.queue s.state.current_command v.ordered)
      (claims-start_current s.state.queue s.state.current_command) v
Step-Inv {n} (completes s) v =
    moved-Inv n s (complete_current s.state)
      (record { sorted = v.ordered.sorted; within_limit = v.ordered.within_limit }) (omega arith) v
Step-Inv {n} (interrupts s) v =
    moved-Inv n s (interrupt_current s.state)
      (record { sorted = v.ordered.sorted; within_limit = v.ordered.within_limit }) (omega arith) v
Step-Inv {n} (clears_bazaar s) v = retained-Inv n s (λ c. not (is_bazaar_order c.command_type)) v
Step-Inv {n} (clears s) v =
    moved-Inv n s (clear s.state) (record { sorted = tt; within_limit = inl (omega arith) })
      (ground arith) v

-- However the calls of several threads interleave, where a call of `enqueue` looks for a pending claim
-- in one step and writes in another: the queue is sorted by priority, has five waiting commands at most
-- or only essential ones, and has no more pending purchase claims than there are callers within `enqueue`
-- at one time; so with one caller at a time there is one claim at most.
pub Reach-Inv : {n : ℕ} {s : Shared} → Reach n s → Inv n s
unfolding new
Reach-Inv fresh = record {
  ordered = record { sorted = tt; within_limit = inl (omega arith) };
  few_callers = omega arith;
  few_claims = omega arith;
}
Reach-Inv (next r st) = Step-Inv st (Reach-Inv r)
