-- ===== src/FlipHandler/Waiting.antt =====
-- src/handlers/flip_handler.rs: the wait for the idle state, and the state that a purchase leaves.
use escrow.Common.{
  ℕ, ◌+◌, ◌*◌, ◌≤◌, ◌<◌, ◌≡◌, refl, ◌↔◌, ◌⊎◌, inl, inr, Bool, true, false, none, some, List, [],
  ◌∷◌, ◌++◌, arith, ltb, if◌then◌else◌, Bool-cases, length, text_keys, side_keys, nat_eq, Text,
  codes,
}
use mathlib.Core.List.{Memᴰ}
use escrow.Types.{Flip, BotState, idle, purchasing}
use escrow.FlipHandler.{
  FlipHandler, IdleWait, ok, err, idle_timeout, became_idle, waiting, gave_up, is_idle, is_startup,
  max_wait, wait_for_idle, usable_uuid, handle_flip,
}

-- 1.1 seconds.
abbrev pub pause : ℕ
pause = 1_100_000_000

-- The loop sleeps for the pause between two polls.
abbrev pub IsPaced : ℕ → List (ℕ × BotState) → Type 0
IsPaced earliest [] = Unit {0}
IsPaced earliest (p ∷ polls) = (earliest ≤ p.0) × IsPaced (p.0 + pause) polls

-- How the wait ends: a poll found the bot idle, or a poll came more than thirty seconds after the start.
pub data Ended (polls : List (ℕ × BotState)) : IdleWait → Type 0 where
  was_idle :
      (elapsed : ℕ) (state : BotState)
      → Memᴰ (elapsed, state) polls
      → is_idle state ≡ true
      → Ended polls became_idle
  too_late :
      (elapsed : ℕ) (state : BotState)
      → Memᴰ (elapsed, state) polls
      → 30 * 1_000_000_000 < elapsed
      → Ended polls (gave_up state)

later_ends :
    (p : ℕ × BotState) (polls : List (ℕ × BotState)) (w : IdleWait)
    → Ended polls w
    → Ended (p ∷ polls) w
later_ends p polls _ (was_idle elapsed state m i) = was_idle elapsed state (Memᴰ.tail m) i
later_ends p polls _ (too_late elapsed state m l) = too_late elapsed state (Memᴰ.tail m) l

wait_ends :
    (earliest : ℕ) (polls : List (ℕ × BotState))
    → IsPaced earliest polls
    → earliest ≤ max_wait + pause
    → max_wait + pause < earliest + pause * length polls
    → Ended polls (wait_for_idle polls)
unfolding wait_for_idle
wait_ends earliest [] p h l = absurd (omega arith)
wait_ends earliest ((elapsed, state) ∷ polls) (now, later) h l = elim (Bool-cases (is_idle state)) [
  | inl i ↦ rw i (was_idle elapsed state (Memᴰ.head refl) i)
  | inr i ↦ elim (Bool-cases (ltb max_wait elapsed)) [
    | inl t ↦ rw (i, t) (too_late elapsed state (Memᴰ.head refl) (ground arith))
    | inr t ↦
        rw (i, t)
          (later_ends (elapsed, state) polls (wait_for_idle polls)
            (wait_ends (elapsed + pause) polls later (ground arith) (omega arith)))
  ]
]

-- The wait for the idle state is over after twenty-nine polls, if the loop sleeps for the pause of 1.1
-- seconds or longer between two of them: a poll found the bot idle, or a poll came more than thirty
-- seconds after the start and the state that it found is given up on.
pub wait_for_idle-ends :
    (polls : List (ℕ × BotState))
    → IsPaced 0 polls
    → 29 ≤ length polls
    → Ended polls (wait_for_idle polls)
wait_for_idle-ends polls p h = wait_ends 0 polls p (omega arith) (omega arith)

not_waiting : (polls : List (ℕ × BotState)) → Ended polls waiting → ⊥
not_waiting polls ended = elim ended [ ]

-- Whether there is an auction to view and the command can be sent.
abbrev pub is_sendable : (Text → Bool) → Flip → Bool
is_sendable send flip = elim (usable_uuid flip.uuid) [
  | none ↦ false
  | some uuid ↦ send (codes "/viewauction " ++ uuid)
]

-- A purchase of an idle bot succeeds and leaves it idle if the auction has an id and the command can
-- be sent. Otherwise it fails, and the state that it leaves is `purchasing`.
pub handle_flip-written :
    (send : Text → Bool) (s : FlipHandler) (flip : Flip) (state : BotState)
    (polls : List (ℕ × BotState))
    → s.config.enabled ≡ true
    → is_startup state ≡ false
    → wait_for_idle polls ≡ became_idle
    → let r = handle_flip send s flip state polls in
      (r.written ≡ some (if is_sendable send flip then idle else purchasing))
      × ((r.result ≡ some ok) ↔ (is_sendable send flip ≡ true))
unfolding handle_flip
handle_flip-written send s flip state polls e n w = ground (arith, e, n, w)

abbrev pub AllPurchasing : List (ℕ × BotState) → Type 0
AllPurchasing [] = Unit {0}
AllPurchasing (p ∷ polls) = (p.1 ≡ purchasing) × AllPurchasing polls

wait-AllPurchasing :
    (polls : List (ℕ × BotState))
    → AllPurchasing polls
    → (wait_for_idle polls ≡ waiting) ⊎ (wait_for_idle polls ≡ gave_up purchasing)
unfolding wait_for_idle
wait-AllPurchasing [] h = inl refl
wait-AllPurchasing ((elapsed, state) ∷ polls) (now, later) =
    let rest = wait-AllPurchasing polls later in ground arith

-- A flip that comes while the state is `purchasing`, as a failed purchase leaves it, and stays so,
-- is given up after the wait: an error is returned, no flip is current, and nothing is sent or
-- written.
pub handle_flip-AllPurchasing :
    (send : Text → Bool) (s : FlipHandler) (flip : Flip) (polls : List (ℕ × BotState))
    → s.config.enabled ≡ true
    → AllPurchasing polls
    → IsPaced 0 polls
    → 29 ≤ length polls
    → let r = handle_flip send s flip purchasing polls in
      (r.result ≡ some (err (idle_timeout purchasing)))
      × (r.handler.current_flip ≡ none)
      × (r.written ≡ none)
      × (r.sent ≡ none)
unfolding handle_flip
handle_flip-AllPurchasing send s flip polls e a p l = elim (wait-AllPurchasing polls a) [
  | inl w ↦ absurd (not_waiting polls (rw w at (wait_for_idle-ends polls p l)))
  | inr g ↦ ground (arith, e, g)
]
