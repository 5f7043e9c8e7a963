-- ===== src/FlipDiag.antt =====
-- src/state/flip_diag.rs: why incoming flips are not bought. An instant is in nanoseconds and stands
-- for every reading of the clock within one call. The warning that a drop logs is part of its result.
pub mod Counters
pub mod Throttle
mod Examples
use escrow.Common.{
  ℕ, zero, suc, ◌+◌, ◌-◌, ◌*◌, ◌/◌, ◌%◌, ◌^◌, ◌≤◌, ◌<◌, ◌≡◌, refl, sym, ap, ◌∙◌, ◌≢◌, ◌↔◌, ◌⊎◌, inl,
  inr, Bool, true, false, not, ◌&&◌, ◌||◌, Option, none, some, List, [], ◌∷◌, ◌++◌, map, reverse,
  arith, ltb, leb, ◌==◌, if◌then◌else◌, bool_eq, is_some, or_else, Bool-cases, Option-cases,
  ==_refl, ==_eq, length, head?, drop, length-append, length-map, length-drop, retain, any, find,
  count, remove_last, count-append, retain-append, length-retain-le, length-retain, count_split,
  find-some, find-any, find-any_of, any-retain, any-append, count-any, Eq, lookup, insert, remove,
  lookup-insert, lookup-remove, DistinctKeys, text_keys, side_keys, nat_eq, Text, codes, text_eq,
  text_eq_refl, text_eq_eq, text_eq_sym, ℤ, pos, negsuc, u64_mod, wrapping_add, wrapping_sub, IsI64,
  int_eq, int_eq_iff, is_positive, wrapping_sub-wrapping_add, wrapping_sub_self, wrapping_sub_shift,
}
use escrow.Strings.{decimal}

pub data FlipDropReason : Type 0 where
  ah_disabled intake_paused cofl_unauthenticated startup_in_progress startup_state inventory_full :
      FlipDropReason

abbrev pub reason_count : ℕ
reason_count = 6

abbrev pub index : FlipDropReason → ℕ
index ah_disabled = 0
index intake_paused = 1
index cofl_unauthenticated = 2
index startup_in_progress = 3
index startup_state = 4
index inventory_full = 5

abbrev pub as_str : FlipDropReason → Text
as_str ah_disabled = codes "AH flips are disabled"
as_str intake_paused = codes "flip intake is paused (Disconnect)"
as_str cofl_unauthenticated = codes "Coflnet is not authenticated yet"
as_str startup_in_progress = codes "the startup workflow is still running"
as_str startup_state = codes "the bot is still starting up"
as_str inventory_full = codes "the inventory is full (selling mode)"

abbrev pub hint : FlipDropReason → Text
hint ah_disabled = codes "enable AH flips in the panel / config"
hint intake_paused = codes "press Connect to resume intake"
hint cofl_unauthenticated = codes "sign in to Coflnet (waiting for auth)"
hint startup_in_progress = codes "waiting for startup to finish — this usually clears on its own"
hint startup_state = codes "waiting for the bot to reach the island"
hint inventory_full = codes "the bot is selling to free space, then it resumes"

abbrev pub log_throttle_secs : ℕ
log_throttle_secs = 120

pub record Inner : Type 0 where
  pub last_accepted_at : Option ℕ
  pub last_drop : Option (FlipDropReason × ℕ)
  pub last_logged : Option (FlipDropReason × ℕ)

-- The counters are `u64`s, and `dropped` has one for each reason.
pub record FlipDiagnostics : Type 0 where
  pub accepted : ℕ
  pub dropped_total : ℕ
  pub dropped : List ℕ
  pub inner : Inner
  pub poisoned : Bool

-- A line of the log: its text, and the reason and the time that it is kept under.
pub record DropLog : Type 0 where
  pub reason : FlipDropReason
  pub at : ℕ
  pub text : Text

unfoldable pub new : FlipDiagnostics
new = record {
  accepted = 0;
  dropped_total = 0;
  dropped = 0 ∷ 0 ∷ 0 ∷ 0 ∷ 0 ∷ 0 ∷ [];
  inner = record { last_accepted_at = none; last_drop = none; last_logged = none };
  poisoned = false;
}

-- `Instant::duration_since(..).as_secs()`, which stops at zero.
abbrev pub secs_between : ℕ → ℕ → ℕ
secs_between at now = (now - at) / 1_000_000_000

-- `fetch_add(1)`, which wraps.
abbrev pub fetch_add_one : ℕ → ℕ
fetch_add_one n = (n + 1) % u64_mod

abbrev pub bump_at : ℕ → List ℕ → List ℕ
bump_at i [] = []
bump_at zero (n ∷ ns) = fetch_add_one n ∷ ns
bump_at (suc i) (n ∷ ns) = n ∷ bump_at i ns

abbrev pub counter_at : ℕ → List ℕ → ℕ
counter_at i [] = 0
counter_at zero (n ∷ ns) = n
counter_at (suc i) (n ∷ ns) = counter_at i ns

unfoldable pub record_accepted : FlipDiagnostics → ℕ → FlipDiagnostics
record_accepted s now =
    let s' = record s { accepted = fetch_add_one s.accepted } in
    if s.poisoned then s' else record s' { inner = record s.inner { last_accepted_at = some now } }

abbrev pub is_due : ℕ → FlipDropReason → Option (FlipDropReason × ℕ) → Bool
is_due now reason none = true
is_due now reason (some (prev, at)) =
    not (index prev == index reason) || leb log_throttle_secs (secs_between at now)

abbrev pub elapsed : ℕ → Option ℕ → Option ℕ
elapsed now none = none
elapsed now (some t) = some (secs_between t now)

abbrev pub last_buy : Option ℕ → Text
last_buy none = codes "no buys yet this session"
last_buy (some secs) = codes "last buy " ++ decimal 20 secs ++ codes "s ago"

abbrev pub detail_text : Option Text → Text
detail_text none = []
detail_text (some []) = []
detail_text (some (c ∷ cs)) = codes " [" ++ (c ∷ cs) ++ codes "]"

abbrev pub drop_text : FlipDropReason → ℕ → Option ℕ → Text → Option Text → Text
drop_text reason n secs item_name detail =
    codes "[FlipDrop] Not buying flips — "
    ++ as_str reason
    ++ codes " ("
    ++ decimal 20 n
    ++ codes " dropped for this reason, "
    ++ last_buy secs
    ++ codes "). Fix: "
    ++ hint reason
    ++ codes ". Latest: "
    ++ item_name
    ++ detail_text detail

unfoldable pub record_drop_detailed :
    FlipDiagnostics → ℕ → FlipDropReason → Text → Option Text → FlipDiagnostics × Option DropLog
unfolding decimal
record_drop_detailed s now reason item_name detail =
    let i = s.inner in
    let dropped = bump_at (index reason) s.dropped in
    let s' = record s { dropped_total = fetch_add_one s.dropped_total; dropped = dropped } in
    let seen = record i { last_drop = some (reason, now) } in
    let line : DropLog = record {
      reason = reason;
      at = now;
      text =
          drop_text reason (counter_at (index reason) dropped) (elapsed now i.last_accepted_at)
            item_name detail;
    } in
    if s.poisoned
    then (s', none)
    else if is_due now reason i.last_logged
    then (record s' { inner = record seen { last_logged = some (reason, now) } }, some line)
    else (record s' { inner = seen }, none)

unfoldable pub record_drop :
    FlipDiagnostics → ℕ → FlipDropReason → Text → FlipDiagnostics × Option DropLog
unfolding record_drop_detailed
record_drop s now reason item_name = record_drop_detailed s now reason item_name none

unfoldable pub accepted_total : FlipDiagnostics → ℕ
accepted_total s = s.accepted

unfoldable pub dropped_total : FlipDiagnostics → ℕ
dropped_total s = s.dropped_total

unfoldable pub secs_since_accepted : FlipDiagnostics → ℕ → Option ℕ
secs_since_accepted s now = if s.poisoned then none else elapsed now s.inner.last_accepted_at

abbrev pub drop_elapsed : ℕ → Option (FlipDropReason × ℕ) → Option (FlipDropReason × ℕ)
drop_elapsed now none = none
drop_elapsed now (some (r, t)) = some (r, secs_between t now)

unfoldable pub last_drop : FlipDiagnostics → ℕ → Option (FlipDropReason × ℕ)
last_drop s now = if s.poisoned then none else drop_elapsed now s.inner.last_drop

-- The arms of the match that have no drop to speak of.
abbrev pub quiet_summary : ℕ → Text
quiet_summary accepted =
    if ltb 0 accepted
    then codes "flips: " ++ decimal 20 accepted ++ codes " bought, none skipped — intake healthy"
    else codes "flips: none seen yet this session"

unfoldable pub summary_line : FlipDiagnostics → ℕ → Text
unfolding decimal accepted_total dropped_total last_drop
summary_line s now =
    let accepted = accepted_total s in
    let dropped = dropped_total s in
    elim (last_drop s now) [
      | none ↦ quiet_summary accepted
      | some (reason, secs_ago) ↦
          if ltb 0 dropped
          then codes "flips: "
            ++ decimal 20 accepted
            ++ codes " bought / "
            ++ decimal 20 dropped
            ++ codes " skipped — last skip "
            ++ decimal 20 secs_ago
            ++ codes "s ago because "
            ++ as_str reason
            ++ codes " ("
            ++ hint reason
            ++ codes ")"
          else quiet_summary accepted
    ]
