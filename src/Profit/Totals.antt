-- ===== src/Profit/Totals.antt =====
-- src/profit.rs: totals over any run of the tracker, restarts included.
use escrow.Common.{
  ℕ, ◌≤◌, ◌≡◌, refl, ap, Bool, true, false, Option, none, some, List, [], ◌∷◌, arith, if◌then◌else◌,
  length, text_keys, side_keys, nat_eq, ℤ, wrapping_add,
}
use escrow.Profit.{
  ProfitPoint, last_point, push_point, ProfitTrackerInner, ProfitTracker, max_points, empty_inner,
  with_storage, load_or_new, or_start, persist_locked, with_ah_total, with_bz_total, set_ah_total,
  record_ah_profit, set_bz_total, record_bz_profit, set_realized_ah_total,
}
use escrow.Profit.Points.{last?, push_point-Sublistᴰ}

-- The total that a series ends with.
abbrev pub latest_total : List ProfitPoint → Option ℤ
latest_total [] = none
latest_total (p ∷ ps) = some (last_point p ps).1

-- Each series ends with its total and is within the bound.
pub record IsConsistent (i : ProfitTrackerInner) : Type 0 where
  pub ah_latest : latest_total i.ah_points ≡ some i.ah_total
  pub bz_latest : latest_total i.bz_points ≡ some i.bz_total
  pub ah_bounded : length i.ah_points ≤ max_points
  pub bz_bounded : length i.bz_points ≤ max_points

abbrev pub AllConsistent : Option ProfitTrackerInner → Type 0
AllConsistent none = Unit {0}
AllConsistent (some i) = IsConsistent i

-- The trackers that there can be: a new one; one that is loaded from what an earlier one gave its
-- writer; and one that a method has changed.
pub data Reach : ProfitTracker → Type 0 where
  started : (now : ℕ) (has_storage : Bool) → Reach (with_storage now has_storage)
  restarted : (s : ProfitTracker) (now : ℕ) → Reach s → Reach (load_or_new now s.scheduled)
  ah_recorded : (s : ProfitTracker) (now : ℕ) (p : ℤ) → Reach s → Reach (record_ah_profit s now p)
  ah_set : (s : ProfitTracker) (now : ℕ) (t : ℤ) → Reach s → Reach (set_ah_total s now t)
  bz_recorded : (s : ProfitTracker) (now : ℕ) (p : ℤ) → Reach s → Reach (record_bz_profit s now p)
  bz_set : (s : ProfitTracker) (now : ℕ) (t : ℤ) → Reach s → Reach (set_bz_total s now t)
  realized_set :
      (s : ProfitTracker) (now : ℕ) (t : ℤ) → Reach s → Reach (set_realized_ah_total s now t)

latest_of_last :
    (ps : List ProfitPoint) (p : ProfitPoint) → last? ps ≡ some p → latest_total ps ≡ some p.1
latest_of_last [] p h = cc
latest_of_last (q ∷ ps) p h = let same : last_point q ps ≡ p = cc in ap (λ x. some x.1) same

with_ah_total-IsConsistent :
    (now : ℕ) (t : ℤ) (i : ProfitTrackerInner)
    → IsConsistent i
    → IsConsistent (with_ah_total now t i)
with_ah_total-IsConsistent now t i c =
    let (_, last, _, bound) =
      push_point-Sublistᴰ i.ah_points (now, t) (omega (arith, c.ah_bounded)) in
    record {
      ah_latest = latest_of_last (push_point i.ah_points (now, t)) (now, t) last;
      bz_latest = c.bz_latest;
      ah_bounded = bound;
      bz_bounded = c.bz_bounded;
    }

with_bz_total-IsConsistent :
    (now : ℕ) (t : ℤ) (i : ProfitTrackerInner)
    → IsConsistent i
    → IsConsistent (with_bz_total now t i)
with_bz_total-IsConsistent now t i c =
    let (_, last, _, bound) =
      push_point-Sublistᴰ i.bz_points (now, t) (omega (arith, c.bz_bounded)) in
    record {
      ah_latest = c.ah_latest;
      bz_latest = latest_of_last (push_point i.bz_points (now, t)) (now, t) last;
      ah_bounded = c.ah_bounded;
      bz_bounded = bound;
    }

pub record IsSound (s : ProfitTracker) : Type 0 where
  pub inner_fits : IsConsistent s.inner
  pub scheduled_fits : AllConsistent s.scheduled

-- A method that does nothing in one of two cases.
either_IsSound :
    (b : Bool) (s t : ProfitTracker) → IsSound s → IsSound t → IsSound (if b then s else t)
either_IsSound true s t c d = c
either_IsSound false s t c d = d

persist_locked-IsSound : (s : ProfitTracker) → IsSound s → IsSound (persist_locked s)
unfolding persist_locked
persist_locked-IsSound s c =
    either_IsSound s.has_writer (record s { scheduled = some s.inner }) s
      (record { inner_fits = c.inner_fits; scheduled_fits = c.inner_fits }) c

-- A method that replaces the state and saves it, if the lock is not poisoned.
replaced-IsSound :
    (s : ProfitTracker) (i : ProfitTrackerInner)
    → IsSound s
    → IsConsistent i
    → IsSound (if s.poisoned then s else persist_locked (record s { inner = i }))
replaced-IsSound s i c h = either_IsSound s.poisoned s (persist_locked (record s { inner = i })) c (
    persist_locked-IsSound (record s { inner = i })
      (record { inner_fits = h; scheduled_fits = c.scheduled_fits }))

empty_inner-IsConsistent : (now : ℕ) → IsConsistent (empty_inner now)
unfolding empty_inner
empty_inner-IsConsistent now = record {
  ah_latest = refl;
  bz_latest = refl;
  ah_bounded = omega arith;
  bz_bounded = omega arith;
}

or_start_id :
    (now : ℕ) (t : ℤ) (ps : List ProfitPoint) → latest_total ps ≡ some t → or_start now t ps ≡ ps
or_start_id now t [] h = cc
or_start_id now t (p ∷ ps) h = refl

load_or_new-IsSound :
    (now : ℕ) (loaded : Option ProfitTrackerInner)
    → AllConsistent loaded
    → IsSound (load_or_new now loaded)
unfolding load_or_new
load_or_new-IsSound now none h = record {
  inner_fits = unfold empty_inner in empty_inner-IsConsistent now;
  scheduled_fits = tt;
}
load_or_new-IsSound now (some i) h = record {
  inner_fits = record {
    ah_latest = rw (or_start_id now i.ah_total i.ah_points h.ah_latest) h.ah_latest;
    bz_latest = rw (or_start_id now i.bz_total i.bz_points h.bz_latest) h.bz_latest;
    ah_bounded = rw (or_start_id now i.ah_total i.ah_points h.ah_latest) h.ah_bounded;
    bz_bounded = rw (or_start_id now i.bz_total i.bz_points h.bz_latest) h.bz_bounded;
  };
  scheduled_fits = tt;
}

-- Every tracker that there can be, after any run of its methods and any restarts, has series that
-- end with their totals and have 5000 points at most, and so has what it last gave its writer.
pub Reach-IsSound : (s : ProfitTracker) → Reach s → IsSound s
unfolding with_storage set_ah_total record_ah_profit set_bz_total record_bz_profit
    set_realized_ah_total
Reach-IsSound _ (started now has_storage) = record {
  inner_fits = empty_inner-IsConsistent now;
  scheduled_fits = tt;
}
Reach-IsSound _ (restarted s now r) =
    load_or_new-IsSound now s.scheduled (Reach-IsSound s r).scheduled_fits
Reach-IsSound _ (ah_recorded s now p r) =
    let c = Reach-IsSound s r in
    replaced-IsSound s (with_ah_total now (wrapping_add s.inner.ah_total p) s.inner) c
      (with_ah_total-IsConsistent now (wrapping_add s.inner.ah_total p) s.inner c.inner_fits)
Reach-IsSound _ (ah_set s now t r) =
    let c = Reach-IsSound s r in
    replaced-IsSound s (with_ah_total now t s.inner) c
      (with_ah_total-IsConsistent now t s.inner c.inner_fits)
Reach-IsSound _ (bz_recorded s now p r) =
    let c = Reach-IsSound s r in
    replaced-IsSound s (with_bz_total now (wrapping_add s.inner.bz_total p) s.inner) c
      (with_bz_total-IsConsistent now (wrapping_add s.inner.bz_total p) s.inner c.inner_fits)
Reach-IsSound _ (bz_set s now t r) =
    let c = Reach-IsSound s r in
    replaced-IsSound s (with_bz_total now t s.inner) c
      (with_bz_total-IsConsistent now t s.inner c.inner_fits)
Reach-IsSound _ (realized_set s now t r) =
    let c = Reach-IsSound s r in
    either_IsSound s.poisoned s
      (record s { inner = record s.inner { realized_ah = some t; realized_ah_at = now } }) c
      (record {
        inner_fits = record {
          ah_latest = c.inner_fits.ah_latest;
          bz_latest = c.inner_fits.bz_latest;
          ah_bounded = c.inner_fits.ah_bounded;
          bz_bounded = c.inner_fits.bz_bounded;
        };
        scheduled_fits = c.scheduled_fits;
      })
