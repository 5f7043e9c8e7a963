-- ===== src/Ping.antt =====
-- src/hypixel_ping.rs: the numbers of variable length that frame a packet, and the times of pings.
-- Bytes are numbers below 256.
pub mod Varints
mod Examples
use escrow.Common.{
  ℕ, zero, suc, ◌+◌, ◌-◌, ◌*◌, ◌/◌, ◌%◌, ◌^◌, ◌≤◌, ◌<◌, ◌≡◌, refl, sym, ap, ◌∙◌, ◌≢◌, ◌↔◌, ◌⊎◌, inl,
  inr, Bool, true, false, not, ◌&&◌, ◌||◌, Option, none, some, List, [], ◌∷◌, ◌++◌, map, reverse,
  arith, ltb, leb, ◌==◌, if◌then◌else◌, bool_eq, is_some, or_else, Bool-cases, Option-cases,
  ==_refl, ==_eq, length, head?, drop, length-append, length-map, length-drop, retain, any, find,
  count, remove_last, count-append, retain-append, length-retain-le, length-retain, count_split,
  find-some, find-any, find-any_of, any-retain, any-append, count-any, Eq, lookup, insert, remove,
  lookup-insert, lookup-remove, DistinctKeys, text_keys, side_keys, nat_eq, Text, codes, text_eq,
  text_eq_refl, text_eq_eq, text_eq_sym, ℤ, pos, negsuc, u64_mod, wrapping_add, wrapping_sub, IsI64,
  int_eq, int_eq_iff, is_positive, wrapping_sub-wrapping_add, wrapping_sub_self, wrapping_sub_shift,
}

abbrev pub u32_mod : ℕ
u32_mod = 4_294_967_296

-- The loop: five rounds are enough for a `u32`.
unfoldable pub write_rounds : ℕ → ℕ → List ℕ
write_rounds zero value = []
write_rounds (suc rounds) value =
    let rest = write_rounds rounds (value / 128) in
    if value / 128 == 0 then value % 128 ∷ [] else (value % 128 + 128) ∷ rest

unfoldable pub write_varint : List ℕ → ℕ → List ℕ
unfolding write_rounds
write_varint buf value = buf ++ write_rounds 5 value

unfoldable pub write_string : List ℕ → List ℕ → List ℕ
unfolding write_varint
write_string buf s = write_varint buf (length s % u32_mod) ++ s

unfoldable pub frame : List ℕ → List ℕ
unfolding write_varint
frame payload = write_varint [] (length payload % u32_mod) ++ payload

pub data ReadError : Type 0 where
  end_of_stream varint_too_long : ReadError

pub data Read : Type 0 where
  got : (value : ℕ) (rest : List ℕ) → Read
  failed : ReadError → Read

-- `place` is `1 << shift`. The bits of the byte do not meet those of `num`, so that `|` is a sum; what
-- does not fit into 32 bits is lost.
unfoldable pub read_rounds : ℕ → ℕ → ℕ → List ℕ → Read
read_rounds zero num place bytes = failed varint_too_long
read_rounds (suc rounds) num place [] = failed end_of_stream
read_rounds (suc rounds) num place (byte ∷ bytes) =
    let value = num + byte % 128 * place % u32_mod in
    let rest = read_rounds rounds value (place * 128) bytes in
    if ltb byte 128 then got value bytes else rest

-- The bits of the result, which the code returns as an `i32`, and the bytes that are left.
unfoldable pub read_varint : List ℕ → Read
unfolding read_rounds
read_varint bytes = read_rounds 5 0 1 bytes

-- The state of the pinger; `latest_live` is zero where no answer was measured.
pub record Pinger : Type 0 where
  pub counter : ℕ
  pub token : ℕ
  pub sent_micros : ℕ
  pub latest : ℕ
  pub latest_live : ℕ

abbrev pub measured : ℕ → Option ℕ
measured zero = none
measured (suc n) = some (suc n)

unfoldable pub latest_ping_ms : Pinger → Option ℕ
latest_ping_ms s = measured s.latest

unfoldable pub latest_live_ping_ms : Pinger → Option ℕ
latest_live_ping_ms s = measured s.latest_live

unfoldable pub best_ping_ms : Pinger → Option ℕ
unfolding latest_live_ping_ms latest_ping_ms
best_ping_ms s = elim (latest_live_ping_ms s) [ some v ↦ some v | none ↦ latest_ping_ms s ]

-- The new token; `micros` is the time since the process started.
unfoldable pub ping_request_started : ℕ → Pinger → Pinger × ℕ
ping_request_started micros s =
    let token = (s.counter + 1) % u64_mod in
    (record s { counter = token; token = token; sent_micros = micros }, token)

abbrev pub at_least_one : ℕ → ℕ
at_least_one n = if n == 0 then 1 else n

unfoldable pub record_pong : ℕ → ℕ → Pinger → Pinger
record_pong micros token s =
    if not (token == s.token)
    then s
    else if leb s.sent_micros micros
    then record s { latest_live = at_least_one ((micros - s.sent_micros + 500) / 1000) }
    else s
