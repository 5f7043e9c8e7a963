-- ===== src/Timestamps.antt =====
-- src/types.rs: how the time of purchase of a flip is read from JSON.
use escrow.Common.{
  ◌+◌, ◌-◌, ◌*◌, Bool, false, Option, none, some, ltb, if◌then◌else◌, Text, ℤ, pos, negsuc,
}
use mathlib.Core.Option
use escrow.Panel.{parse_i64}

-- A JSON value, as far as the reader tells them apart. A number is the `i64` that it is, if it is one.
pub data Value : Type 0 where
  null : Value
  number : Option ℤ → Value
  string : Text → Value
  other : Value

-- Values above this are milliseconds, the others seconds.
abbrev pub is_millis : ℤ → Bool
is_millis (pos n) = ltb 1_000_000_000_000 n
is_millis (negsuc n) = false

-- `saturating_mul(1000)`.
abbrev pub saturating_thousand : ℤ → ℤ
saturating_thousand (pos n) =
    pos (if ltb 9223372036854775807 (n * 1000) then 9223372036854775807 else n * 1000)
saturating_thousand (negsuc n) =
    negsuc
      (if ltb 9223372036854775808 ((n + 1) * 1000) then 9223372036854775807 else (n + 1) * 1000 - 1)

abbrev pub scale : ℤ → ℤ
scale v = if is_millis v then v else saturating_thousand v

-- The reader of dates is a parameter. `none` is an error, `some none` a missing value.
unfoldable pub deserialize_optional_timestamp_millis : (Text → Option ℤ) → Value → Option (Option ℤ)
unfolding parse_i64
deserialize_optional_timestamp_millis parse_from_rfc3339 null = some none
deserialize_optional_timestamp_millis parse_from_rfc3339 (number none) = none
deserialize_optional_timestamp_millis parse_from_rfc3339 (number (some v)) = some (some (scale v))
deserialize_optional_timestamp_millis parse_from_rfc3339 (string s) = elim (parse_i64 s) [
  | some v ↦ some (some (scale v))
  | none ↦ Option.map (λ d. some d) (parse_from_rfc3339 s)
]
deserialize_optional_timestamp_millis parse_from_rfc3339 other = none
