-- ===== src/Queue/Examples.antt =====
-- Concrete queues: tests of the definitions by evaluation, and the theorems at these inputs.
use escrow.Common.{◌≡◌, refl, true, false, none, List, [], ◌∷◌, arith, codes, map, retain}
use escrow.Types.{
  Uuid, critical, high, normal, low, CommandType, QueuedCommand, BazaarOrder, bazaar_buy_order,
  claim_purchased_item, check_cookie, go_to_island, manage_orders,
}
use escrow.Queue.{CommandQueue, new, enqueue, start_current, peek, push, trim, insert}
use escrow.Queue.Trim.{trimmed, trim-trimmed, is_essential}
use escrow.Queue.Lanes.{
  command, view, flatten, add, seen, serve, started, enqueue-lanes, start_current-lanes,
}
use escrow.Queue.Claims.{enqueue-keeps_essential}
use escrow.Queue.Reach.{Shared, fresh, next, checks, writes, Reach, claims, Inv, Reach-Inv}

abbrev coal : BazaarOrder
coal = record { item_name = codes "Coal"; item_tag = none; amount = 64; price_per_unit = 10 }

abbrev buy_coal : CommandType
buy_coal = bazaar_buy_order coal

abbrev manage : CommandType
manage = manage_orders false none

-- Three waiting commands, one of them a stale bazaar order at a minute and a second.
abbrev waiting : CommandQueue
waiting = record {
  queue =
      command 1 5 claim_purchased_item high false
      ∷ command 2 0 buy_coal normal true
      ∷ command 3 7 check_cookie low true
      ∷ [];
  current_command = none;
}

abbrev full : List QueuedCommand
full =
    command 1 0 manage high false
    ∷ command 2 0 manage high false
    ∷ command 3 0 buy_coal normal true
    ∷ command 4 0 manage normal false
    ∷ command 5 0 check_cookie low true
    ∷ command 6 0 go_to_island low true
    ∷ []

ids : List QueuedCommand → List Uuid
ids = map (λ c. c.id)

critical_first : ids (enqueue waiting 9 8 manage critical false).0.queue ≡ 9 ∷ 1 ∷ 2 ∷ 3 ∷ []
unfolding enqueue ids
critical_first = refl

behind_its_equals : ids (enqueue waiting 9 8 manage normal false).0.queue ≡ 1 ∷ 2 ∷ 9 ∷ 3 ∷ []
unfolding enqueue ids
behind_its_equals = refl

claim_collapses : enqueue waiting 9 8 claim_purchased_item high false ≡ (waiting, 1)
unfolding enqueue
claim_collapses = refl

last_droppable_goes : ids (trim 6 full) ≡ 1 ∷ 2 ∷ 3 ∷ 4 ∷ 5 ∷ []
unfolding trim ids
last_droppable_goes = refl

stale_goes : ids (peek waiting 60_000_000_001).0.queue ≡ 1 ∷ 3 ∷ []
unfolding peek ids
stale_goes = refl

enqueue-lanes_example : enqueue waiting 9 8 manage normal false ≡ (
  record waiting {
    queue = trimmed (flatten (add normal (command 9 8 manage normal false) (view waiting.queue)));
  },
  9,
)
enqueue-lanes_example = enqueue-lanes waiting 9 8 manage normal false (omega arith) refl

start_current-lanes_example :
    (seen (start_current waiting) ≡ serve (view waiting.queue))
    × ((start_current waiting).0.current_command ≡ started (start_current waiting).1 none)
start_current-lanes_example = start_current-lanes waiting (omega arith)

trim-trimmed_example : trim 6 full ≡ trimmed full
trim-trimmed_example = trim-trimmed 6 full (omega arith)

enqueue-keeps_essential_example :
    retain is_essential (enqueue waiting 9 8 manage low false).0.queue
    ≡ insert (command 9 8 manage low false) []
enqueue-keeps_essential_example = enqueue-keeps_essential waiting 9 8 manage low false (omega arith)

abbrev claim : Uuid → QueuedCommand
claim id = command id 0 claim_purchased_item high false

-- Two callers look for a pending claim before either of them writes.
abbrev both_checked : Shared
both_checked = record { state = new; writing = claim 2 ∷ claim 1 ∷ [] }

abbrev raced : Shared
raced = record { state = push (push new (claim 1)) (claim 2); writing = [] }

two_claims : claims raced.state.queue ≡ 2
unfolding new push
two_claims = refl

raced-Reach : Reach 2 raced
unfolding new
raced-Reach =
    let first =
      checks (record { state = new; writing = [] }) 1 0 claim_purchased_item high false refl
        (omega arith) in
    let second =
      checks (record { state = new; writing = claim 1 ∷ [] }) 2 0 claim_purchased_item high false
        refl (omega arith) in
    next (next (next (next fresh first) second) (writes new (claim 2 ∷ []) [] (claim 1)))
      (writes (push new (claim 1)) [] [] (claim 2))

Reach-Inv_example : Inv 2 raced
Reach-Inv_example = Reach-Inv raced-Reach
