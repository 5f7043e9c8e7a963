-- ===== src/Profit.antt =====
-- src/profit.rs: the profit series of the auction house and the bazaar. The clock's reading in
-- seconds is an argument, and so is what the file held. A lock that a panic poisoned is `poisoned`.
pub mod Points
pub mod Session
pub mod Totals
pub mod Sums
mod Examples
use escrow.Common.{
  ℕ, zero, suc, ◌+◌, ◌-◌, ◌*◌, ◌/◌, ◌%◌, ◌^◌, ◌≤◌, ◌<◌, ◌≡◌, refl, sym, ap, ◌∙◌, ◌≢◌, ◌↔◌, ◌⊎◌, inl,
  inr, Bool, true, false, not, ◌&&◌, ◌||◌, Option, none, some, List, [], ◌∷◌, ◌++◌, map, reverse,
  arith, ltb, leb, ◌==◌, if◌then◌else◌, bool_eq, is_some, or_else, Bool-cases, Option-cases,
  ==_refl, ==_eq, length, head?, drop, length-append, length-map, length-drop, retain, any, find,
  count, remove_last, count-append, retain-append, length-retain-le, length-retain, count_split,
  find-some, find-any, find-any_of, any-retain, any-append, count-any, Eq, lookup, insert, remove,
  lookup-insert, lookup-remove, DistinctKeys, text_keys, side_keys, nat_eq, Text, codes, text_eq,
  text_eq_refl, text_eq_eq, text_eq_sym, ℤ, pos, negsuc, u64_mod, wrapping_add, wrapping_sub, IsI64,
  int_eq, int_eq_iff, is_positive, wrapping_sub-wrapping_add, wrapping_sub_self,
}

-- Seconds and coins.
abbrev pub ProfitPoint : Type 0
ProfitPoint = ℕ × ℤ

pub record ProfitSnapshot : Type 0 where
  pub all_time_ah_points : List ProfitPoint
  pub all_time_bz_points : List ProfitPoint
  pub all_time_ah_total : ℤ
  pub all_time_bz_total : ℤ
  pub session_ah_points : List ProfitPoint
  pub session_bz_points : List ProfitPoint
  pub session_ah_total : ℤ
  pub session_bz_total : ℤ
  pub session_started_at_unix : ℕ

abbrev pub max_points : ℕ
max_points = 5000

-- The loop from index 1 on, by steps of two: it stops at the last point.
abbrev pub every_other : List ProfitPoint → List ProfitPoint
every_other [] = []
every_other (p ∷ []) = []
every_other (p ∷ q ∷ ps) = p ∷ every_other ps

abbrev pub last_point : ProfitPoint → List ProfitPoint → ProfitPoint
last_point p [] = p
last_point p (q ∷ qs) = last_point q qs

abbrev pub decimate : List ProfitPoint → List ProfitPoint
decimate [] = []
decimate (first ∷ rest) = first ∷ every_other rest ++ last_point first rest ∷ []

unfoldable pub push_point : List ProfitPoint → ProfitPoint → List ProfitPoint
push_point points point =
    let pushed = points ++ point ∷ [] in
    if leb (length pushed) max_points then pushed else decimate pushed

pub record ProfitTrackerInner : Type 0 where
  pub ah_points : List ProfitPoint
  pub bz_points : List ProfitPoint
  pub ah_total : ℤ
  pub bz_total : ℤ
  pub realized_ah : Option ℤ
  pub realized_ah_at : ℕ

-- `scheduled` is what the writer was last given.
pub record ProfitTracker : Type 0 where
  pub inner : ProfitTrackerInner
  pub poisoned : Bool
  pub has_writer : Bool
  pub scheduled : Option ProfitTrackerInner
  pub session_started_at_unix : ℕ
  pub session_ah_baseline : ℤ
  pub session_bz_baseline : ℤ

unfoldable pub empty_inner : ℕ → ProfitTrackerInner
empty_inner now = record {
  ah_points = (now, pos 0) ∷ [];
  bz_points = (now, pos 0) ∷ [];
  ah_total = pos 0;
  bz_total = pos 0;
  realized_ah = none;
  realized_ah_at = 0;
}

unfoldable pub with_storage : ℕ → Bool → ProfitTracker
unfolding empty_inner
with_storage now has_storage = record {
  inner = empty_inner now;
  poisoned = false;
  has_writer = has_storage;
  scheduled = none;
  session_started_at_unix = now;
  session_ah_baseline = pos 0;
  session_bz_baseline = pos 0;
}

abbrev pub or_start : ℕ → ℤ → List ProfitPoint → List ProfitPoint
or_start now total [] = (now, total) ∷ []
or_start now total (p ∷ ps) = p ∷ ps

-- `loaded` is the file's content, `none` where it could not be read or parsed.
unfoldable pub load_or_new : ℕ → Option ProfitTrackerInner → ProfitTracker
unfolding empty_inner
load_or_new now loaded =
    let found = or_else loaded (empty_inner now) in
    record {
      inner = record found {
        ah_points = or_start now found.ah_total found.ah_points;
        bz_points = or_start now found.bz_total found.bz_points;
      };
      poisoned = false;
      has_writer = true;
      scheduled = none;
      session_started_at_unix = now;
      session_ah_baseline = found.ah_total;
      session_bz_baseline = found.bz_total;
    }

unfoldable pub persist_locked : ProfitTracker → ProfitTracker
persist_locked s = if s.has_writer then record s { scheduled = some s.inner } else s

-- The total is replaced, and the series has one more point.
abbrev pub with_ah_total : ℕ → ℤ → ProfitTrackerInner → ProfitTrackerInner
with_ah_total now total i = record i {
  ah_total = total;
  ah_points = push_point i.ah_points (now, total);
}

abbrev pub with_bz_total : ℕ → ℤ → ProfitTrackerInner → ProfitTrackerInner
with_bz_total now total i = record i {
  bz_total = total;
  bz_points = push_point i.bz_points (now, total);
}

unfoldable pub set_ah_total : ProfitTracker → ℕ → ℤ → ProfitTracker
unfolding push_point persist_locked
set_ah_total s now total =
    if s.poisoned then s else persist_locked (record s { inner = with_ah_total now total s.inner })

unfoldable pub record_ah_profit : ProfitTracker → ℕ → ℤ → ProfitTracker
unfolding push_point persist_locked
record_ah_profit s now profit =
    if s.poisoned
    then s
    else persist_locked
        (record s { inner = with_ah_total now (wrapping_add s.inner.ah_total profit) s.inner })

unfoldable pub set_bz_total : ProfitTracker → ℕ → ℤ → ProfitTracker
unfolding push_point persist_locked
set_bz_total s now total =
    if s.poisoned then s else persist_locked (record s { inner = with_bz_total now total s.inner })

unfoldable pub record_bz_profit : ProfitTracker → ℕ → ℤ → ProfitTracker
unfolding push_point persist_locked
record_bz_profit s now profit =
    if s.poisoned
    then s
    else persist_locked
        (record s { inner = with_bz_total now (wrapping_add s.inner.bz_total profit) s.inner })

unfoldable pub set_realized_ah_total : ProfitTracker → ℕ → ℤ → ProfitTracker
set_realized_ah_total s now total =
    if s.poisoned
    then s
    else record s { inner = record s.inner { realized_ah = some total; realized_ah_at = now } }

unfoldable pub ah_points : ProfitTracker → List ProfitPoint
ah_points s = if s.poisoned then [] else s.inner.ah_points

unfoldable pub bz_points : ProfitTracker → List ProfitPoint
bz_points s = if s.poisoned then [] else s.inner.bz_points

unfoldable pub realized_ah : ProfitTracker → Option (ℤ × ℕ)
realized_ah s =
    if s.poisoned
    then none
    else (elim s.inner.realized_ah [ none ↦ none | some v ↦ some (v, s.inner.realized_ah_at) ])

unfoldable pub totals : ProfitTracker → ℤ × ℤ
totals s = if s.poisoned then (pos 0, pos 0) else (s.inner.ah_total, s.inner.bz_total)

unfoldable pub session_totals : ProfitTracker → ℤ × ℤ
session_totals s = if s.poisoned then (pos 0, pos 0) else (
  wrapping_sub s.inner.ah_total s.session_ah_baseline,
  wrapping_sub s.inner.bz_total s.session_bz_baseline,
)

-- One point of the session: it replaces the last one if that has the same time.
abbrev pub add_delta : List ProfitPoint → ProfitPoint → List ProfitPoint
add_delta [] p = p ∷ []
add_delta (q ∷ []) p = if q.0 == p.0 then p ∷ [] else q ∷ p ∷ []
add_delta (q ∷ r ∷ qs) p = q ∷ add_delta (r ∷ qs) p

-- The loop over the points, from what it has built.
unfoldable pub add_session_points : ℕ → ℤ → List ProfitPoint → List ProfitPoint → List ProfitPoint
add_session_points started baseline built [] = built
add_session_points started baseline built (p ∷ ps) =
    let delta = wrapping_sub p.1 baseline in
    let built' = if leb started p.0 then add_delta built (p.0, delta) else built in
    add_session_points started baseline built' ps

unfoldable pub build_session_points : List ProfitPoint → ℕ → ℤ → List ProfitPoint
unfolding add_session_points
build_session_points points started baseline =
    add_session_points started baseline ((started, pos 0) ∷ []) points

unfoldable pub snapshot : ProfitTracker → ProfitSnapshot
unfolding build_session_points
snapshot s =
    let i = s.inner in
    let started = s.session_started_at_unix in
    if s.poisoned
    then record {
      all_time_ah_points = [];
      all_time_bz_points = [];
      all_time_ah_total = pos 0;
      all_time_bz_total = pos 0;
      session_ah_points = (started, pos 0) ∷ [];
      session_bz_points = (started, pos 0) ∷ [];
      session_ah_total = pos 0;
      session_bz_total = pos 0;
      session_started_at_unix = started;
    }
    else record {
      all_time_ah_points = i.ah_points;
      all_time_bz_points = i.bz_points;
      all_time_ah_total = i.ah_total;
      all_time_bz_total = i.bz_total;
      session_ah_points = build_session_points i.ah_points started s.session_ah_baseline;
      session_bz_points = build_session_points i.bz_points started s.session_bz_baseline;
      session_ah_total = wrapping_sub i.ah_total s.session_ah_baseline;
      session_bz_total = wrapping_sub i.bz_total s.session_bz_baseline;
      session_started_at_unix = started;
    }
