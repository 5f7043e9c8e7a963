-- ===== src/Queue/Trim.antt =====
-- src/state/command_queue.rs: what the trimming loop of `enqueue` leaves in the queue.
use escrow.Common.{
  ℕ, zero, suc, ◌-◌, ◌≤◌, ◌<◌, ◌≡◌, sym, ◌∙◌, ◌⊎◌, inl, inr, Bool, false, not, none, some, List,
  arith, Option-cases, length, any, count, remove_last, keep_first, keep_first_all,
  keep_first-remove_last, remove_last-some, remove_last-none, count_split, any_of_count,
}
use native.Mathlib.Decide.{dec_le}
use escrow.Types.{QueuedCommand}
use escrow.Queue.{is_droppable, trim, max_queue_size}

abbrev pub is_essential : QueuedCommand → Bool
is_essential c = not (is_droppable c)

-- The trimmed queue, by one rule: all essential commands stay, and as many of the first droppable
-- ones as there is room for.
abbrev pub trimmed : List QueuedCommand → List QueuedCommand
trimmed q = keep_first is_droppable (max_queue_size - count is_essential q) q

trim_room : (fuel : ℕ) (q : List QueuedCommand) → length q ≤ 5 → trim (suc fuel) q ≡ q
unfolding trim
trim_room fuel q h = ground arith

trim_stuck :
    (fuel : ℕ) (q : List QueuedCommand) → remove_last is_droppable q ≡ none → trim (suc fuel) q ≡ q
unfolding trim
trim_stuck fuel q e = ground arith

trim_round :
    (fuel : ℕ) (q : List QueuedCommand) (z : QueuedCommand × List QueuedCommand)
    → 5 < length q
    → remove_last is_droppable q ≡ some z
    → trim (suc fuel) q ≡ trim fuel z.1
unfolding trim
trim_round fuel q z h e = ground arith

trimmed_room : (q : List QueuedCommand) → length q ≤ 5 → trimmed q ≡ q
trimmed_room q h = keep_first_all is_droppable _ q (omega (arith, count_split is_droppable q))

-- A round of the loop leaves the rule's outcome as it is.
trimmed_round :
    (q : List QueuedCommand) (z : QueuedCommand × List QueuedCommand)
    → 5 < length q
    → remove_last is_droppable q ≡ some z
    → trimmed z.1 ≡ trimmed q
trimmed_round q z h e =
    let (_, fewer, shorter) = remove_last-some is_droppable q z.0 z.1 e in
    let same : count is_essential z.1 ≡ count is_essential q =
      omega (arith, count_split is_droppable q, count_split is_droppable z.1) in
    rw same (
      sym (
        keep_first-remove_last is_droppable q z.0 z.1 (5 - count is_essential q) e
          (omega (arith, count_split is_droppable q))))

-- The trimming loop, given at least as many rounds as the queue has commands, leaves all essential
-- commands and as many of the first droppable ones as fit into the maximum size beside them.
pub trim-trimmed : (fuel : ℕ) (q : List QueuedCommand) → length q ≤ fuel → trim fuel q ≡ trimmed q
trim-trimmed zero q h = unfold trim in sym (trimmed_room q (omega arith))
trim-trimmed (suc fuel) q h = elim (dec_le (length q) 5) [
  | yes room ↦ trim_room fuel q room ∙ sym (trimmed_room q room)
  | no over ↦ elim (Option-cases (remove_last is_droppable q)) [
    | inl e ↦
        trim_stuck fuel q e
        ∙ sym (keep_first_all is_droppable _ q (omega (arith, remove_last-none is_droppable q e)))
    | inr (z, e) ↦
        trim_round fuel q z (omega arith) e
        ∙ (trim-trimmed fuel z.1 (omega (arith, remove_last-some is_droppable q z.0 z.1 e))
            ∙ trimmed_round q z (omega arith) e)
  ]
]

-- The queue is within its limit, or every command in it is essential.
abbrev pub WithinLimit : List QueuedCommand → Type 0
WithinLimit q = (length q ≤ max_queue_size) ⊎ (any is_droppable q ≡ false)

pub trim-WithinLimit :
    (fuel : ℕ) (q : List QueuedCommand) → length q ≤ fuel → WithinLimit (trim fuel q)
unfolding trim
trim-WithinLimit zero q h = inl (omega arith)
trim-WithinLimit (suc fuel) q h = elim (dec_le (length q) 5) [
  | yes room ↦ rw (trim_room fuel q room) (inl room)
  | no over ↦ elim (Option-cases (remove_last is_droppable q)) [
    | inl e ↦
        rw (trim_stuck fuel q e)
          (inr (any_of_count is_droppable q (remove_last-none is_droppable q e)))
    | inr (z, e) ↦
        rw (trim_round fuel q z (omega arith) e)
          (trim-WithinLimit fuel z.1 (omega (arith, remove_last-some is_droppable q z.0 z.1 e)))
  ]
]
