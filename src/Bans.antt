-- ===== src/Bans.antt =====
-- src/webhook.rs: whether a ban is announced. The ledger, which is a file, is part of the state; its
-- entry for an account is the identity of the ban that was announced last.
pub mod Ages
pub mod Durations
pub mod Ledger
mod Examples
use escrow.Common.{
  ℕ, zero, suc, ◌+◌, ◌-◌, ◌*◌, ◌/◌, ◌%◌, ◌^◌, ◌≤◌, ◌<◌, ◌≡◌, refl, sym, ap, ◌∙◌, ◌≢◌, ◌↔◌, ◌⊎◌, inl,
  inr, Bool, true, false, not, ◌&&◌, ◌||◌, Option, none, some, List, [], ◌∷◌, ◌++◌, map, reverse,
  arith, ltb, leb, ◌==◌, if◌then◌else◌, bool_eq, is_some, or_else, Bool-cases, Option-cases,
  ==_refl, ==_eq, length, head?, drop, length-append, length-map, length-drop, retain, any, find,
  count, remove_last, count-append, retain-append, length-retain-le, length-retain, count_split,
  find-some, find-any, find-any_of, any-retain, any-append, count-any, Eq, lookup, insert, remove,
  lookup-insert, lookup-remove, DistinctKeys, text_keys, side_keys, nat_eq, Text, codes, text_eq,
  text_eq_refl, text_eq_eq, text_eq_sym, ℤ, pos, negsuc, u64_mod, wrapping_add, wrapping_sub, IsI64,
  int_eq, int_eq_iff, is_positive, wrapping_sub-wrapping_add, wrapping_sub_self, wrapping_sub_shift,
}
use escrow.Strings.{is_ascii_digit, to_ascii_lowercase}

abbrev pub u64_max : ℕ
u64_max = 18_446_744_073_709_551_615

abbrev pub saturating : ℕ → ℕ
saturating n = if leb n u64_max then n else u64_max

-- The seconds of a unit.
abbrev pub unit_secs : ℕ → Option ℕ
unit_secs c =
    if c == b'w'
    then some 604_800
    else if c == b'd'
    then some 86_400
    else if c == b'h'
    then some 3_600
    else if c == b'm'
    then some 60
    else if c == b's'
    then some 1
    else none

-- `parse::<u64>` of digits, the last of them first: `none` where the number is too large.
abbrev pub value_of : List ℕ → ℕ
value_of [] = 0
value_of (d ∷ ds) = value_of ds * 10 + (d - b'0')

abbrev pub parse_u64 : List ℕ → Option ℕ
parse_u64 ds = if leb (value_of ds) u64_max then some (value_of ds) else none

-- The total so far and whether a unit was read; what is left; the digits before it, the last first.
unfoldable pub parse_tokens : ℕ → Bool → List ℕ → Text → Option ℕ
parse_tokens total matched digits [] = if matched then some total else none
parse_tokens total matched [] (c ∷ cs) = elim (is_ascii_digit c) [
  | true ↦ parse_tokens total matched (c ∷ []) cs
  | false ↦ parse_tokens total matched [] cs
]
parse_tokens total matched (d ∷ ds) (c ∷ cs) = elim (is_ascii_digit c) [
  | true ↦ parse_tokens total matched (c ∷ d ∷ ds) cs
  | false ↦ elim (unit_secs (to_ascii_lowercase c)) [
    | none ↦ parse_tokens total matched [] cs
    | some secs ↦ elim (parse_u64 (d ∷ ds)) [
      | none ↦ none
      | some n ↦ parse_tokens (saturating (total + saturating (n * secs))) true [] cs
    ]
  ]
]

unfoldable pub parse_ban_duration_secs : Text → Option ℕ
unfolding parse_tokens
parse_ban_duration_secs duration = parse_tokens 0 false [] duration

abbrev pub hypixel_ban_ladder_secs : List ℕ
hypixel_ban_ladder_secs = 2_592_000 ∷ 7_776_000 ∷ 15_552_000 ∷ 31_104_000 ∷ []

unfoldable pub ban_age_secs : ℕ → ℕ
ban_age_secs remaining_secs =
    elim (find (λ rung. leb remaining_secs rung) hypixel_ban_ladder_secs) [
      | some issued ↦ issued - remaining_secs
      | none ↦ (remaining_secs + 86_399) / 86_400 * 86_400 - remaining_secs
    ]

abbrev pub ban_notify_max_age_secs : ℕ
ban_notify_max_age_secs = 120

-- The parts of a parsed ban that decide whether it is announced.
pub record ParsedBan : Type 0 where
  pub is_permanent : Bool
  pub is_security_ban : Bool
  pub duration : Option Text
  pub ban_id : Option Text

abbrev pub remaining_of : Option Text → Option ℕ
remaining_of none = none
remaining_of (some duration) = parse_ban_duration_secs duration

-- `max_age` is the setting, or the default.
unfoldable pub ban_is_recent : ℕ → ParsedBan → Bool
unfolding parse_ban_duration_secs ban_age_secs
ban_is_recent max_age parsed = elim (remaining_of parsed.duration) [
  | none ↦ true
  | some remaining ↦ leb (ban_age_secs remaining) max_age
]

abbrev pub temporary_identity : Option Text → Text
temporary_identity none = codes "unknown"
temporary_identity (some duration) = codes "temporary:" ++ duration

unfoldable pub ban_identity : ParsedBan → Text
ban_identity parsed = elim parsed.ban_id [
  | some id ↦ id
  | none ↦
      if parsed.is_security_ban
      then codes "security"
      else if parsed.is_permanent
      then codes "permanent"
      else temporary_identity parsed.duration
]

-- The identity and the time of the announcement, by the name of the account in small letters.
pub record Notified : Type 0 where
  pub identity : Text
  pub at : ℕ

abbrev pub Ledger : Type 0
Ledger = List (Text × Notified)

abbrev pub is_same : Text → Option Notified → Bool
is_same identity none = false
is_same identity (some seen) = text_eq seen.identity identity

-- How the write of the ledger ends: with the ledger in the file, or in an error that may have truncated
-- the file already and leaves what can be read of it.
pub data Write : Type 0 where
  written : Write
  write_failed : Option Ledger → Write

-- What the file holds after the write, `none` where it cannot be read or parsed.
abbrev pub noted : Write → Text → Notified → Ledger → Option Ledger
noted written key entry ledger = some (insert key entry ledger)
noted (write_failed left) key entry ledger = left

-- A file that cannot be read or parsed counts as an empty ledger.
unfoldable pub claim_ban_notification :
    Write → ℕ → Option Ledger → Text → Text → Option Ledger × Bool
claim_ban_notification write now file ingame_name identity =
    let ledger = or_else file [] in
    let key = map to_ascii_lowercase ingame_name in
    if is_same identity (lookup key ledger)
    then (file, false)
    else (noted write key (record { identity = identity; at = now }) ledger, true)

unfoldable pub should_notify_ban :
    ℕ → Write → ℕ → Option Ledger → Text → ParsedBan → Option Ledger × Bool
should_notify_ban max_age write now file ingame_name parsed =
    if not (ban_is_recent max_age parsed)
    then (file, false)
    else claim_ban_notification write now file ingame_name (ban_identity parsed)
