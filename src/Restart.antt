-- ===== src/Restart.antt =====
-- src/main.rs: what survives a restart of the bot: the flips that were bought and not sold, the time
-- of the session and the rest break; and the profit that a tracked flip promises. A file is the map
-- that was written, or `none` where it cannot be read; the file of the flips is read field by field. A `HashMap` has no two entries of one key,
-- so an entry that is inserted from another map is kept as it is.
pub mod Entries
pub mod Flips
pub mod Fees
mod Examples
use escrow.Common.{
  ℕ, zero, suc, ◌+◌, ◌-◌, ◌*◌, ◌/◌, ◌%◌, ◌^◌, ◌≤◌, ◌<◌, ◌≡◌, refl, sym, ap, ◌∙◌, ◌≢◌, ◌↔◌, ◌⊎◌, inl,
  inr, Bool, true, false, not, ◌&&◌, ◌||◌, Option, none, some, List, [], ◌∷◌, ◌++◌, map, reverse,
  arith, ltb, leb, ◌==◌, if◌then◌else◌, bool_eq, is_some, or_else, Bool-cases, Option-cases,
  ==_refl, ==_eq, length, head?, drop, length-append, length-map, length-drop, retain, any, find,
  count, remove_last, count-append, retain-append, length-retain-le, length-retain, count_split,
  find-some, find-any, find-any_of, any-retain, any-append, count-any, Eq, lookup, insert, remove,
  lookup-insert, lookup-remove, DistinctKeys, text_keys, side_keys, nat_eq, Text, codes, text_eq,
  text_eq_refl, text_eq_eq, text_eq_sym, ℤ, pos, negsuc, u64_mod, wrapping_add, wrapping_sub, IsI64,
  int_eq, int_eq_iff, is_positive, wrapping_sub-wrapping_add, wrapping_sub_self, wrapping_sub_shift,
}
use escrow.Timestamps.{Value, null, number, deserialize_optional_timestamp_millis}
use escrow.Types.{
  F64, Flip, Instant, BotState, allows_commands, CommandType, bazaar_buy_order, manage_orders,
}
use escrow.Strings.{remove_minecraft_colors}

-- What a test keeps of each entry.
abbrev pub keep_entry : {W : Type 0} → Text → Option W → List (Text × W) → List (Text × W)
keep_entry k none m = m
keep_entry k (some w) m = (k, w) ∷ m

unfoldable pub keep_values : {V W : Type 0} → (V → Option W) → List (Text × V) → List (Text × W)
keep_values f [] = []
keep_values f ((k, v) ∷ m) = keep_entry k (f v) (keep_values f m)

abbrev pub map_values : {V W : Type 0} → (V → W) → List (Text × V) → List (Text × W)
map_values f [] = []
map_values f ((k, v) ∷ m) = (k, f v) ∷ map_values f m

-- A purchased flip: its price, zero until the purchase is seen, and when it was bought and received.
pub record TrackedFlip : Type 0 where
  pub flip : Flip
  pub buy_price : ℕ
  pub purchased : Instant
  pub received : Instant

pub record TrackedFlipEntry : Type 0 where
  pub flip : Flip
  pub buy_price : ℕ
  pub purchased_at : ℕ
  pub received_at : ℕ

abbrev pub FlipTracker : Type 0
FlipTracker = List (Text × TrackedFlip)

abbrev pub FlipFile : Type 0
FlipFile = List (Text × List (Text × TrackedFlipEntry))

abbrev pub max_tracked_flip_age_secs : ℕ
max_tracked_flip_age_secs = 604_800

-- `elapsed().as_secs()` at the instant `mono`.
abbrev pub elapsed_secs : Instant → Instant → ℕ
elapsed_secs mono t = (mono - t) / 1_000_000_000

-- The second of the wall clock, which shows `wall`, at which an instant was.
abbrev pub stamp : ℕ → Instant → Instant → ℕ
stamp wall mono t = wall - elapsed_secs mono t

abbrev pub saved_entry : ℕ → Instant → TrackedFlip → Option TrackedFlipEntry
saved_entry wall mono t =
    if ltb 0 t.buy_price
    then some (record {
      flip = t.flip;
      buy_price = t.buy_price;
      purchased_at = stamp wall mono t.purchased;
      received_at = stamp wall mono t.received;
    })
    else none

abbrev pub with_snapshot : Text → List (Text × TrackedFlipEntry) → FlipFile → FlipFile
with_snapshot ign [] file = remove ign file
with_snapshot ign (e ∷ es) file = insert ign (e ∷ es) file

-- The number or the `null` that a time of purchase is written as.
abbrev pub written_time : Option ℤ → Value
written_time none = null
written_time (some v) = number (some v)

-- How an `f64` is read back is a parameter: what is no number is read as a missing value.
module _ (reread_f64 : F64 → Option F64) where
  abbrev pub reread_percentage : Option F64 → Option F64
  reread_percentage none = none
  reread_percentage (some x) = reread_f64 x

  -- A flip as it is read from what was written. No time is written as a text.
  abbrev pub reread_flip : Flip → Flip
  reread_flip f = record f {
    profit_perc = reread_percentage f.profit_perc;
    purchase_at_ms =
        or_else (deserialize_optional_timestamp_millis (λ _. none) (written_time f.purchase_at_ms))
          none;
  }

  abbrev pub reread_entry : TrackedFlipEntry → TrackedFlipEntry
  reread_entry e = record e { flip = reread_flip e.flip }

  -- What is read of a file that was written.
  abbrev pub load_flip_tracker_file : Option FlipFile → FlipFile
  load_flip_tracker_file none = []
  load_flip_tracker_file (some file) = map_values (map_values reread_entry) file

  -- What is written to the file.
  unfoldable pub save_flip_tracker : ℕ → Instant → Option FlipFile → Text → FlipTracker → FlipFile
  unfolding keep_values
  save_flip_tracker wall mono file ign tracker =
      with_snapshot ign (keep_values (saved_entry wall mono) tracker) (load_flip_tracker_file file)

-- `checked_sub` of an instant and a number of seconds.
module _ (checked_sub : Instant → ℕ → Option Instant) where
  abbrev pub anchor : ℕ → Instant → ℕ → Instant
  anchor wall mono ts = elim (checked_sub mono (wall - ts)) [ none ↦ mono | some t ↦ t ]

  abbrev pub restored_entry : ℕ → Instant → TrackedFlipEntry → Option TrackedFlip
  restored_entry wall mono e =
      if ltb max_tracked_flip_age_secs (wall - e.purchased_at)
      then none
      else some (record {
        flip = e.flip;
        buy_price = e.buy_price;
        purchased = anchor wall mono e.purchased_at;
        received = anchor wall mono e.received_at;
      })

  abbrev pub restored_entries : ℕ → Instant → Option (List (Text × TrackedFlipEntry)) → FlipTracker
  restored_entries wall mono none = []
  restored_entries wall mono (some entries) = keep_values (restored_entry wall mono) entries

  unfoldable pub restore_flip_tracker :
      (F64 → Option F64) → ℕ → Instant → Option FlipFile → Text → FlipTracker
  unfolding keep_values
  restore_flip_tracker reread_f64 wall mono file ign =
      restored_entries wall mono (lookup ign (load_flip_tracker_file reread_f64 file))

-- In `u64` arithmetic, which wraps.
unfoldable pub calculate_ah_fee : ℕ → ℕ
calculate_ah_fee price =
    if ltb price 10_000_000
    then price / 100
    else if ltb price 100_000_000
    then (price * 2) % u64_mod / 100
    else (price * 25) % u64_mod / 1000

-- A `u64` as an `i64`.
abbrev pub as_i64 : ℕ → ℤ
as_i64 n = wrapping_add (pos n) (pos 0)

abbrev pub promised_profit : TrackedFlip → Option ℤ
promised_profit t =
    if ltb 0 t.buy_price && ltb 0 t.flip.target
    then some (
        wrapping_sub (wrapping_sub (as_i64 t.flip.target) (as_i64 t.buy_price))
          (as_i64 (calculate_ah_fee t.flip.target)))
    else none

-- The lowercasing of Unicode text is a parameter.
unfoldable pub tracked_finder_profit : (Text → Text) → FlipTracker → Text → Option Text × Option ℤ
unfolding remove_minecraft_colors calculate_ah_fee
tracked_finder_profit to_lowercase tracker item_name =
    elim (lookup (to_lowercase (remove_minecraft_colors item_name)) tracker) [
      | none ↦ (none, none)
      | some t ↦ (t.flip.finder, promised_profit t)
    ]

unfoldable pub should_enqueue_periodic_auction_claim : BotState → Bool → Bool
unfolding allows_commands
should_enqueue_periodic_auction_claim bot_state queue_empty =
    allows_commands bot_state && queue_empty

abbrev pub dropped_while_paused : CommandType → Bool → Bool
dropped_while_paused (bazaar_buy_order order) inventory_full = true
dropped_while_paused (manage_orders cancel_open target_item) inventory_full = not inventory_full
dropped_while_paused _ inventory_full = false

unfoldable pub should_drop_bazaar_command_during_ah_pause : CommandType → Bool → Bool → Bool
should_drop_bazaar_command_during_ah_pause command_type bazaar_flips_paused inventory_full =
    if not bazaar_flips_paused then false else dropped_while_paused command_type inventory_full

-- The rest-break marker, a file of its own.
pub record RestBreak : Type 0 where
  pub ign : Text
  pub until : ℕ

abbrev pub write_rest_break_marker : Text → ℕ → Option RestBreak
write_rest_break_marker ign until_unix = some (record { ign = ign; until = until_unix })

unfoldable pub pending_rest_break_secs : Option RestBreak → ℕ → Text → Option ℕ
pending_rest_break_secs none now ign = none
pending_rest_break_secs (some marker) now ign =
    if not (text_eq marker.ign ign)
    then none
    else if ltb now marker.until
    then some (marker.until - now)
    else none

unfoldable pub resumed_from_rest_break : Option RestBreak → Text → Bool
resumed_from_rest_break none ign = false
resumed_from_rest_break (some marker) ign = text_eq marker.ign ign

pub record SessionTimeEntry : Type 0 where
  pub secs : ℕ
  pub saved_at : ℕ

-- What the file of session times holds: the map, or the map of the old format.
pub data TimesFile : Type 0 where
  missing unreadable : TimesFile
  current : List (Text × SessionTimeEntry) → TimesFile
  old_format : List (Text × ℕ) → TimesFile

abbrev pub expired : ℕ → Option SessionTimeEntry
expired secs = some (record { secs = 0; saved_at = 0 })

unfoldable pub load_session_times : TimesFile → List (Text × SessionTimeEntry)
unfolding keep_values
load_session_times missing = []
load_session_times unreadable = []
load_session_times (current times) = times
load_session_times (old_format old) = keep_values expired old

unfoldable pub save_session_time : ℕ → TimesFile → Text → ℕ → TimesFile
unfolding load_session_times
save_session_time now file ign total_secs =
    current (insert ign (record { secs = total_secs; saved_at = now }) (load_session_times file))

unfoldable pub clear_session_time : TimesFile → Text → TimesFile
unfolding load_session_times
clear_session_time file ign = current (remove ign (load_session_times file))

unfoldable pub ah_purchase_ledger_key : (Text → Text) → Text → Option Text → Text
unfolding remove_minecraft_colors
ah_purchase_ledger_key to_lowercase item_name (some (c ∷ cs)) = codes "uuid:" ++ (c ∷ cs)
ah_purchase_ledger_key to_lowercase item_name _ =
    codes "name:" ++ to_lowercase (remove_minecraft_colors item_name)
