-- ===== src/Persistence.antt =====
-- src/persistence.rs: the writer that saves a value in the background. The thread's steps and the
-- calls of the other threads are events, in any order. What the disk and the serialiser answer to a
-- write is an argument of the step that writes.
pub mod Settled
pub mod Newest
mod Examples
use escrow.Common.{
  ℕ, zero, suc, ◌+◌, ◌-◌, ◌*◌, ◌/◌, ◌%◌, ◌^◌, ◌≤◌, ◌<◌, ◌≡◌, refl, sym, ap, ◌∙◌, ◌≢◌, ◌↔◌, ◌⊎◌, inl,
  inr, Bool, true, false, not, ◌&&◌, ◌||◌, Option, none, some, List, [], ◌∷◌, ◌++◌, map, reverse,
  arith, ltb, leb, ◌==◌, if◌then◌else◌, bool_eq, is_some, or_else, Bool-cases, Option-cases,
  ==_refl, ==_eq, length, head?, drop, length-append, length-map, length-drop, retain, any, find,
  count, remove_last, count-append, retain-append, length-retain-le, length-retain, count_split,
  find-some, find-any, find-any_of, any-retain, any-append, count-any, Eq, lookup, insert, remove,
  lookup-insert, lookup-remove, DistinctKeys, text_keys, side_keys, nat_eq, Text, codes, text_eq,
  text_eq_refl, text_eq_eq, text_eq_sym, ℤ, pos, negsuc, u64_mod, wrapping_add, wrapping_sub, IsI64,
  int_eq, int_eq_iff, is_positive, wrapping_sub-wrapping_add, wrapping_sub_self, wrapping_sub_shift,
}

-- The mode with a thread, or the one that writes inline.
pub data WriterMode : Type 0 where
  sync async : WriterMode

-- `channel` holds what was sent and not received, the oldest first; `pending` is the thread's.
-- `working` is whether the thread still receives.
pub record AsyncJsonWriter (T : Type 0) : Type 0 where
  pub mode : WriterMode
  pub channel : List T
  pub pending : Option T
  pub working : Bool
  pub file : Option T

-- A start with a debounce of zero, or for which no thread can be started, writes inline.
abbrev pub mode_of : Bool → Bool → WriterMode
mode_of true spawned = sync
mode_of false true = async
mode_of false false = sync

abbrev pub is_async : WriterMode → Bool
is_async sync = false
is_async async = true

unfoldable pub new : {T : Type 0} → Bool → Bool → Option T → AsyncJsonWriter T
new debounce_is_zero spawned file = record {
  mode = mode_of debounce_is_zero spawned;
  channel = [];
  pending = none;
  working = is_async (mode_of debounce_is_zero spawned);
  file = file;
}

-- How a write ends: with the value stored; without the folder or the text, before the file is touched;
-- or in an error of the write, which has truncated the file already and leaves what can be read of it.
pub data Disk (T : Type 0) : Type 0 where
  stored no_folder not_serialised : Disk T
  write_failed : Option T → Disk T

unfoldable pub write_json : {T : Type 0} → Disk T → T → AsyncJsonWriter T → AsyncJsonWriter T
write_json stored value s = record s { file = some value }
write_json no_folder value s = s
write_json not_serialised value s = s
write_json (write_failed left) value s = record s { file = left }

unfoldable pub schedule : {T : Type 0} → Disk T → T → AsyncJsonWriter T → AsyncJsonWriter T
unfolding write_json
schedule disk value s =
    if is_async s.mode && s.working
    then record s { channel = s.channel ++ (value ∷ []) }
    else write_json disk value s

unfoldable pub write_now : {T : Type 0} → Disk T → T → AsyncJsonWriter T → AsyncJsonWriter T
unfolding write_json
write_now disk value s = write_json disk value s

-- The thread takes the next value, in either of its two waits.
abbrev pub received : {T : Type 0} → List T → AsyncJsonWriter T → AsyncJsonWriter T
received [] s = s
received (v ∷ vs) s = record s { channel = vs; pending = some v }

-- The pending value is written, and is pending no more even if the write fails.
unfoldable pub flushed : {T : Type 0} → Disk T → Option T → AsyncJsonWriter T → AsyncJsonWriter T
unfolding write_json
flushed disk none s = s
flushed disk (some v) s = write_json disk v (record s { pending = none })

unfoldable pub timed_out : {T : Type 0} → Disk T → List T → AsyncJsonWriter T → AsyncJsonWriter T
unfolding flushed
timed_out disk [] s = flushed disk s.pending s
timed_out disk (v ∷ vs) s = s

unfoldable pub disconnected : {T : Type 0} → Disk T → List T → AsyncJsonWriter T → AsyncJsonWriter T
unfolding flushed
disconnected disk [] s = record (flushed disk s.pending s) { working = false }
disconnected disk (v ∷ vs) s = s

-- A step of the thread: a value arrives, the debounce ends with no value, or all senders are gone
-- and the channel is empty.
pub data WorkerEvent (T : Type 0) : Type 0 where
  receives : WorkerEvent T
  times_out disconnects : Disk T → WorkerEvent T

unfoldable pub run_worker : {T : Type 0} → WorkerEvent T → AsyncJsonWriter T → AsyncJsonWriter T
unfolding timed_out disconnected
run_worker receives s = if s.working then received s.channel s else s
run_worker (times_out disk) s = if s.working then timed_out disk s.channel s else s
run_worker (disconnects disk) s = if s.working then disconnected disk s.channel s else s

pub data Event (T : Type 0) : Type 0 where
  schedules writes_now : Disk T → T → Event T
  worker : WorkerEvent T → Event T

unfoldable pub step : {T : Type 0} → Event T → AsyncJsonWriter T → AsyncJsonWriter T
unfolding schedule write_now run_worker
step (schedules disk v) s = schedule disk v s
step (writes_now disk v) s = write_now disk v s
step (worker e) s = run_worker e s

abbrev pub steps : {T : Type 0} → List (Event T) → AsyncJsonWriter T → AsyncJsonWriter T
steps [] s = s
steps (e ∷ es) s = steps es (step e s)
