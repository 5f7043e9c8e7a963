-- ===== src/Profit/Session.antt =====
-- src/profit.rs: the points of a session, and the snapshot.
use escrow.Common.{
  ℕ, ◌≤◌, ◌<◌, ◌≡◌, refl, ◌⊎◌, inl, inr, true, false, some, List, [], ◌∷◌, arith, leb, ◌==◌,
  if◌then◌else◌, Bool-cases, length, text_keys, side_keys, nat_eq, ℤ, pos, wrapping_add,
  wrapping_sub,
}
use escrow.Profit.{
  ProfitPoint, last_point, push_point, ProfitTracker, add_delta, add_session_points,
  build_session_points, record_ah_profit, with_ah_total, snapshot, max_points, persist_locked,
}
use escrow.Profit.Points.{last?, push_point-Sublistᴰ}

-- Times that do not go back, from a given time on, and times that go forward.
abbrev pub IsTimed : ℕ → List ProfitPoint → Type 0
IsTimed t [] = Unit {0}
IsTimed t (p ∷ ps) = (t ≤ p.0) × IsTimed p.0 ps

abbrev pub IsIncreasing : List ProfitPoint → Type 0
IsIncreasing [] = Unit {0}
IsIncreasing (p ∷ []) = Unit {0}
IsIncreasing (p ∷ q ∷ ps) = (p.0 < q.0) × IsIncreasing (q ∷ ps)

abbrev pub StartsAt : ℕ → List ProfitPoint → Type 0
StartsAt t [] = 1 ≤ 0
StartsAt t (p ∷ ps) = p.0 ≡ t

last?-cons :
    (q p : ProfitPoint) (ps : List ProfitPoint) → last? ps ≡ some p → last? (q ∷ ps) ≡ some p
last?-cons q p [] h = cc
last?-cons q p (r ∷ ps) h = h

last?-add_delta : (built : List ProfitPoint) (p : ProfitPoint) → last? (add_delta built p) ≡ some p
last?-add_delta [] p = refl
last?-add_delta (q ∷ []) p = ground arith
last?-add_delta (q ∷ r ∷ qs) p = last?-cons q p (add_delta (r ∷ qs) p) (last?-add_delta (r ∷ qs) p)

-- The last point of the session is the series' last, less the baseline.
last?-add_session_points :
    (started : ℕ) (baseline : ℤ) (built ps : List ProfitPoint) (p : ProfitPoint)
    → last? ps ≡ some p
    → started ≤ p.0
    → last? (add_session_points started baseline built ps) ≡ some (p.0, wrapping_sub p.1 baseline)
unfolding add_session_points
last?-add_session_points started baseline built [] p h g = cc
last?-add_session_points started baseline built (q ∷ []) p h g =
    let same : q ≡ p = cc in
    let inside : leb started q.0 ≡ true = rw same (ground arith) in
    rw (inside, same) (last?-add_delta built (p.0, wrapping_sub p.1 baseline))
last?-add_session_points started baseline built (q ∷ r ∷ ps) p h g =
    let built' =
      if leb started q.0 then add_delta built (q.0, wrapping_sub q.1 baseline) else built in
    last?-add_session_points started baseline built' (r ∷ ps) p h g

StartsAt-add_delta :
    (t : ℕ) (b : ProfitPoint) (bs : List ProfitPoint) (p : ProfitPoint)
    → b.0 ≡ t
    → StartsAt t (add_delta (b ∷ bs) p)
StartsAt-add_delta t b [] p h = elim (Bool-cases (b.0 == p.0)) [
  | inl e ↦ rw e (ground arith)
  | inr e ↦ rw e h
]
StartsAt-add_delta t b (c ∷ bs) p h = h

IsIncreasing-cons :
    (t : ℕ) (b : ProfitPoint) (ps : List ProfitPoint)
    → b.0 < t
    → StartsAt t ps
    → IsIncreasing ps
    → IsIncreasing (b ∷ ps)
IsIncreasing-cons t b [] l s i = tt
IsIncreasing-cons t b (p ∷ ps) l s i = (omega arith, i)

add_delta-IsIncreasing :
    (b : ProfitPoint) (bs : List ProfitPoint) (p : ProfitPoint)
    → IsIncreasing (b ∷ bs)
    → (last_point b bs).0 ≤ p.0
    → IsIncreasing (add_delta (b ∷ bs) p)
add_delta-IsIncreasing b [] p i h = elim (Bool-cases (b.0 == p.0)) [
  | inl e ↦ rw e tt
  | inr e ↦ rw e (ground arith, tt)
]
add_delta-IsIncreasing b (c ∷ bs) p i h =
    IsIncreasing-cons c.0 b (add_delta (c ∷ bs) p) i.0 (StartsAt-add_delta c.0 c bs p refl)
      (add_delta-IsIncreasing c bs p i.1 h)

-- What the loop keeps of its list.
pub record IsSession (started t : ℕ) (built : List ProfitPoint) : Type 0 where
  pub increasing : IsIncreasing built
  pub starts : StartsAt started built
  pub behind : (p : ProfitPoint) → last? built ≡ some p → (p.0 ≤ started) ⊎ (p.0 ≤ t)

add_delta-IsSession :
    (started t : ℕ) (built : List ProfitPoint) (p : ProfitPoint)
    → IsSession started t built
    → t ≤ p.0
    → started ≤ p.0
    → IsSession started p.0 (add_delta built p)
add_delta-IsSession started t [] p s h g = absurd (omega (arith, s.starts))
add_delta-IsSession started t (b ∷ bs) p s h g =
    let last : (last_point b bs).0 ≤ p.0 = (elim (s.behind (last_point b bs) refl) [
      | inl x ↦ omega arith
      | inr x ↦ omega arith
    ]) in
    record {
      increasing = add_delta-IsIncreasing b bs p s.increasing last;
      starts = StartsAt-add_delta started b bs p s.starts;
      behind =
          λ q e. let same : p ≡ q = cc (last?-add_delta (b ∷ bs) p) in inr (rw same (omega arith));
    }

IsSession-later :
    (started t u : ℕ) (built : List ProfitPoint)
    → IsSession started t built
    → t ≤ u
    → IsSession started u built
IsSession-later started t u built s h = record {
  increasing = s.increasing;
  starts = s.starts;
  behind = λ q l. elim (s.behind q l) [ inl x ↦ inl x | inr x ↦ inr (omega arith) ];
}

add_session_points-IsSession :
    (started t : ℕ) (baseline : ℤ) (built ps : List ProfitPoint)
    → IsSession started t built
    → IsTimed t ps
    → IsIncreasing (add_session_points started baseline built ps)
      × StartsAt started (add_session_points started baseline built ps)
unfolding add_session_points
add_session_points-IsSession started t baseline built [] s h = (s.increasing, s.starts)
add_session_points-IsSession started t baseline built (p ∷ ps) s h =
    elim (Bool-cases (leb started p.0)) [
      | inl e ↦
          let next : ProfitPoint = (p.0, wrapping_sub p.1 baseline) in
          rw e (
            add_session_points-IsSession started p.0 baseline (add_delta built next) ps
              (add_delta-IsSession started t built next s h.0 (ground arith)) h.1)
      | inr e ↦ rw e (
          add_session_points-IsSession started p.0 baseline built ps
            (IsSession-later started t p.0 built s h.0) h.1)
    ]

start_IsSession : (started t : ℕ) → IsSession started t ((started, pos 0) ∷ [])
start_IsSession started t = record {
  increasing = tt;
  starts = refl;
  behind = λ q l. inl (let same : q ≡ (started, pos 0) = cc in rw same (omega arith));
}

-- The points of a session begin at its start and go forward in time, where the times of the series
-- do not go back; and where the series' last point falls into the session, it is the last, less
-- the baseline.
pub build_session_points-IsIncreasing :
    (points : List ProfitPoint) (started : ℕ) (baseline : ℤ) (p : ProfitPoint)
    → IsTimed 0 points
    → last? points ≡ some p
    → started ≤ p.0
    → let built = build_session_points points started baseline in
      IsIncreasing built
      × StartsAt started built
      × (last? built ≡ some (p.0, wrapping_sub p.1 baseline))
unfolding build_session_points
build_session_points-IsIncreasing points started baseline p h l g =
    let start : List ProfitPoint = (started, pos 0) ∷ [] in
    let (up, first) =
      add_session_points-IsSession started 0 baseline start points (start_IsSession started 0) h in
    (up, first, last?-add_session_points started baseline start points p l g)

-- The part of the state that a record changes or a snapshot reads.
record_ah_profit-fields :
    (s : ProfitTracker) (now : ℕ) (profit : ℤ)
    → s.poisoned ≡ false
    → let s' = record_ah_profit s now profit in
      (s'.poisoned ≡ false)
      × (s'.inner ≡ with_ah_total now (wrapping_add s.inner.ah_total profit) s.inner)
      × (s'.session_started_at_unix ≡ s.session_started_at_unix)
      × (s'.session_ah_baseline ≡ s.session_ah_baseline)
unfolding record_ah_profit persist_locked
record_ah_profit-fields s now profit h = elim (Bool-cases s.has_writer) [
  | inl e ↦ rw (h, e) (refl, refl, refl, refl)
  | inr e ↦ rw (h, e) (refl, refl, refl, refl)
]

-- What a snapshot shows of the auction house.
snapshot-fields :
    (s : ProfitTracker)
    → s.poisoned ≡ false
    → ((snapshot s).session_ah_points
        ≡ build_session_points s.inner.ah_points s.session_started_at_unix s.session_ah_baseline)
      × ((snapshot s).session_ah_total ≡ wrapping_sub s.inner.ah_total s.session_ah_baseline)
      × ((snapshot s).all_time_ah_points ≡ s.inner.ah_points)
      × ((snapshot s).all_time_ah_total ≡ s.inner.ah_total)
unfolding snapshot
snapshot-fields s h = rw h (refl, refl, refl, refl)

last?-build_session_points :
    (points : List ProfitPoint) (started : ℕ) (baseline : ℤ) (p : ProfitPoint)
    → last? points ≡ some p
    → started ≤ p.0
    → last? (build_session_points points started baseline) ≡ some (p.0, wrapping_sub p.1 baseline)
unfolding build_session_points
last?-build_session_points points started baseline p l g =
    last?-add_session_points started baseline ((started, pos 0) ∷ []) points p l g

-- Right after a profit of the auction house is recorded, at a time not before the session's start
-- and with at most 9997 points so far, the snapshot's session series ends with that time and the
-- session's total, its whole series with that time and the total of all time, and it is no longer
-- than the bound.
pub snapshot-record_ah_profit :
    (s : ProfitTracker) (now : ℕ) (profit : ℤ)
    → s.poisoned ≡ false
    → s.session_started_at_unix ≤ now
    → length s.inner.ah_points ≤ 9997
    → let shown = snapshot (record_ah_profit s now profit) in
      (last? shown.session_ah_points ≡ some (now, shown.session_ah_total))
      × (last? shown.all_time_ah_points ≡ some (now, shown.all_time_ah_total))
      × (length shown.all_time_ah_points ≤ max_points)
snapshot-record_ah_profit s now profit h g l =
    let s' = record_ah_profit s now profit in
    let total = wrapping_add s.inner.ah_total profit in
    let (ok, inner, at, base) = record_ah_profit-fields s now profit h in
    let (points, session, all, amount) = snapshot-fields s' ok in
    let (_, last, _, bound) = push_point-Sublistᴰ s.inner.ah_points (now, total) l in
    rw (points, session, all, amount, inner, at, base)
      (
        last?-build_session_points (push_point s.inner.ah_points (now, total))
            s.session_started_at_unix s.session_ah_baseline (now, total) last g,
        last,
        bound,
      )
