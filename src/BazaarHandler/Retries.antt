-- ===== src/BazaarHandler/Retries.antt =====
-- src/handlers/bazaar_flip_handler.rs: the retries of a bazaar order.
use escrow.Common.{
  ℕ, zero, suc, ◌+◌, ◌-◌, ◌*◌, ◌≤◌, ◌≡◌, refl, ap, ◌∙◌, inl, inr, Bool, true, false, Option, none,
  some, List, [], ◌∷◌, arith, ltb, if◌then◌else◌, Bool-cases, any, text_keys, side_keys, nat_eq,
  Text, codes,
}
use escrow.Strings.{contains}
use escrow.Types.{BotState, idle, bazaar}
use escrow.BazaarHandler.{
  FlipRun, max_order_placement_retries, backoff_delay, is_retryable, last_attempt, retried,
  attempt_with, attempts, execute_bazaar_flip,
}

-- Whether the answer to an attempt is one after which another follows: a window that timed out, or a
-- price that the failsafe refused.
abbrev pub asks_again : Option Text → Bool
asks_again none = false
asks_again (some message) =
    any (λ cause. contains cause message) (codes "timed out" ∷ codes "Price failsafe" ∷ [])

-- `n` rounds: to the bazaar, and back to idle.
abbrev pub rounds : ℕ → List BotState
rounds zero = []
rounds (suc n) = bazaar ∷ idle ∷ rounds n

-- `n` delays, each twice the one before it.
abbrev pub doubling : ℕ → ℕ → List ℕ
doubling zero delay = []
doubling (suc n) delay = delay ∷ doubling n (2 * delay)

abbrev pub times : ℕ → Text → List Text
times zero t = []
times (suc n) t = t ∷ times n t

-- A run of `n` attempts and one more from number `attempt` on, the first of whose delays is `delay`.
abbrev pub IsRun : (ℕ → Option Text) → Text → ℕ → ℕ → ℕ → FlipRun → Type 0
IsRun answer command n attempt delay r =
    (r.result ≡ answer (attempt + n))
    × (r.sent ≡ times (suc n) command)
    × (r.delays ≡ doubling n delay)
    × (r.states ≡ rounds (suc n))

-- How many attempts there are before the last.
abbrev pub before_last : (ℕ → Option Text) → ℕ → ℕ → ℕ
before_last answer zero attempt = zero
before_last answer (suc left) attempt =
    let later = before_last answer left (attempt + 1) in
    if asks_again (answer attempt) then suc later else zero

zero_right : (n : ℕ) → n ≡ n + 0
zero_right n = omega arith

move_one : (m n : ℕ) → m + 1 + n ≡ m + suc n
move_one m n = omega arith

IsRun-last :
    (answer : ℕ → Option Text) (command : Text) (attempt delay : ℕ) (a : Option Text)
    → a ≡ answer attempt
    → IsRun answer command 0 attempt delay (last_attempt command a)
IsRun-last answer command attempt delay a h = (h ∙ ap answer (zero_right attempt), refl, refl, refl)

IsRun-retried :
    (answer : ℕ → Option Text) (command : Text) (n attempt delay : ℕ) (rest : FlipRun)
    → delay ≡ backoff_delay attempt
    → IsRun answer command n (attempt + 1) (2 * delay) rest
    → IsRun answer command (suc n) attempt delay (retried command attempt rest)
IsRun-retried answer command n attempt delay rest e (r, l, d, s) = (
  r ∙ ap answer (move_one attempt n),
  ap (λ t. command ∷ t) l,
  rw e (ap (λ t. backoff_delay attempt ∷ t) (rw e at d)),
  ap (λ t. bazaar ∷ idle ∷ t) s,
)

asks_again-is_retryable : (m : Text) → asks_again (some m) ≡ is_retryable m
unfolding is_retryable
asks_again-is_retryable m = ground arith

attempt_with-IsRun :
    (answer : ℕ → Option Text) (command : Text) (n attempt delay : ℕ) (rest : FlipRun)
    (a : Option Text)
    → ltb attempt max_order_placement_retries ≡ true
    → a ≡ answer attempt
    → delay ≡ backoff_delay attempt
    → IsRun answer command n (attempt + 1) (2 * delay) rest
    → IsRun answer command
        (if asks_again a then suc n else 0)
        attempt
        delay
        (attempt_with command attempt a rest)
unfolding attempt_with
attempt_with-IsRun answer command n attempt delay rest none h e b r =
    IsRun-last answer command attempt delay none e
attempt_with-IsRun answer command n attempt delay rest (some m) h e b r =
    elim (Bool-cases (is_retryable m)) [
      | inl y ↦
          rw (asks_again-is_retryable m, h, y)
            (IsRun-retried answer command n attempt delay rest b r)
      | inr y ↦
          rw (asks_again-is_retryable m, h, y) (IsRun-last answer command attempt delay (some m) e)
    ]

attempt_with-last :
    (command : Text) (attempt : ℕ) (a : Option Text) (rest : FlipRun)
    → ltb attempt max_order_placement_retries ≡ false
    → attempt_with command attempt a rest ≡ last_attempt command a
unfolding attempt_with
attempt_with-last command attempt none rest h = refl
attempt_with-last command attempt (some m) rest h = rw h refl

attempts-IsRun :
    (send : ℕ → Text → Option Text) (command : Text) (left attempt delay : ℕ) (e : Option Text)
    → attempt + left ≡ max_order_placement_retries
    → delay ≡ backoff_delay attempt
    → ((i : ℕ) → 1 ≤ i → 2 * backoff_delay i ≡ backoff_delay (i + 1))
    → 1 ≤ attempt
    → IsRun
        (λ i. send i command)
        command
        (before_last (λ i. send i command) left attempt)
        attempt
        delay
        (attempts send command (suc left) attempt e)
unfolding attempts
attempts-IsRun send command zero attempt delay e h b twice o =
    rw
      (attempt_with-last command attempt (send attempt command)
        (attempts send command zero (attempt + 1) (send attempt command)) (ground arith))
      (IsRun-last (λ i. send i command) command attempt delay (send attempt command) refl)
attempts-IsRun send command (suc left) attempt delay e h b twice o =
    attempt_with-IsRun (λ i. send i command) command
      (before_last (λ i. send i command) left (attempt + 1)) attempt delay
      (attempts send command (suc left) (attempt + 1) (send attempt command)) (send attempt command)
      (ground arith) refl b
      (attempts-IsRun send command left (attempt + 1) (2 * delay) (send attempt command)
        (omega (arith, h)) (ap (λ d. 2 * d) b ∙ twice attempt o) twice (omega arith))

double_delay : (i : ℕ) → 1 ≤ i → 2 * backoff_delay i ≡ backoff_delay (i + 1)
double_delay zero h = absurd (omega arith)
double_delay (suc i) h =
    let before : suc i - 1 ≡ i = omega arith in
    let after : suc i + 1 - 1 ≡ suc i = omega arith in rw (before, after) (omega arith)

-- An order is tried until an attempt succeeds or fails with an error that is neither a time-out nor the
-- price failsafe's, three times at most. Each attempt sends the command, takes the bot to the bazaar and
-- leaves it idle; the delays between the attempts are one second and two, and the result is the last
-- attempt's.
pub execute_bazaar_flip-IsRun :
    (send : ℕ → Text → Option Text) (command : Text)
    → let n = before_last (λ i. send i command) 2 1 in
      let r = execute_bazaar_flip send command in
      (n ≤ 2)
      × (r.result ≡ send (1 + n) command)
      × (r.sent ≡ times (suc n) command)
      × (r.delays ≡ doubling n 1000)
      × (r.states ≡ rounds (suc n))
unfolding execute_bazaar_flip
execute_bazaar_flip-IsRun send command =
    let run = attempts-IsRun send command 2 1 1000 none refl refl double_delay (omega arith) in
    (ground arith, run.0, run.1, run.2, run.3)
