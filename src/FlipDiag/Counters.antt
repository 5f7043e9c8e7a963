-- ===== src/FlipDiag/Counters.antt =====
-- src/state/flip_diag.rs: what the counters and the clocks show.
use escrow.Common.{
  ℕ, zero, suc, ◌+◌, ◌%◌, ◌<◌, ◌≡◌, refl, ◌∙◌, inl, inr, false, Option, some, List, [], ◌∷◌, arith,
  Bool-cases, length, text_keys, side_keys, nat_eq, Text, u64_mod,
}
use escrow.FlipDiag.{
  FlipDropReason, index, reason_count, FlipDiagnostics, new, fetch_add_one, bump_at, secs_between,
  record_accepted, record_drop_detailed, secs_since_accepted, last_drop, is_due,
}

abbrev pub sum : List ℕ → ℕ
sum [] = 0
sum (n ∷ ns) = n + sum ns

index_lt : (r : FlipDropReason) → index r < reason_count
index_lt r = ground arith

length-bump_at : (i : ℕ) (ns : List ℕ) → length (bump_at i ns) ≡ length ns
length-bump_at i [] = refl
length-bump_at zero (n ∷ ns) = refl
length-bump_at (suc i) (n ∷ ns) = omega (arith, length-bump_at i ns)

sum-bump_at :
    (i : ℕ) (ns : List ℕ) → i < length ns → sum (bump_at i ns) % u64_mod ≡ (sum ns + 1) % u64_mod
sum-bump_at i [] h = absurd (omega arith)
sum-bump_at zero (n ∷ ns) h = omega arith
sum-bump_at (suc i) (n ∷ ns) h = omega (arith, sum-bump_at i ns (omega arith))

-- One counter per reason, and a total that is their sum, as far as a `u64` can show it.
pub record IsCounted (s : FlipDiagnostics) : Type 0 where
  pub one_each : length s.dropped ≡ reason_count
  pub total : s.dropped_total ≡ sum s.dropped % u64_mod

-- What the tracker can come to.
pub data Reach : FlipDiagnostics → Type 0 where
  started : Reach new
  accepted : (s : FlipDiagnostics) (now : ℕ) → Reach s → Reach (record_accepted s now)
  dropped :
      (s : FlipDiagnostics) (now : ℕ) (r : FlipDropReason) (item_name : Text) (detail : Option Text)
      → Reach s
      → Reach (record_drop_detailed s now r item_name detail).0

-- The counters after a drop, whether it is logged or not.
record_drop_detailed-counters :
    (s : FlipDiagnostics) (now : ℕ) (r : FlipDropReason) (item_name : Text) (detail : Option Text)
    → let s' = (record_drop_detailed s now r item_name detail).0 in
      (s'.dropped ≡ bump_at (index r) s.dropped)
      × (s'.dropped_total ≡ fetch_add_one s.dropped_total)
unfolding record_drop_detailed
record_drop_detailed-counters s now r item_name detail = elim (Bool-cases s.poisoned) [
  | inl p ↦ rw p (refl, refl)
  | inr p ↦ elim (Bool-cases (is_due now r s.inner.last_logged)) [
    | inl d ↦ rw (p, d) (refl, refl)
    | inr d ↦ rw (p, d) (refl, refl)
  ]
]

record_accepted-counters :
    (s : FlipDiagnostics) (now : ℕ)
    → ((record_accepted s now).dropped ≡ s.dropped)
      × ((record_accepted s now).dropped_total ≡ s.dropped_total)
unfolding record_accepted
record_accepted-counters s now = elim (Bool-cases s.poisoned) [
  | inl p ↦ rw p (refl, refl)
  | inr p ↦ rw p (refl, refl)
]

-- Whatever is accepted and dropped, in whatever order, there is one counter for each reason, and the
-- total is the sum of the counters modulo 2^64.
pub Reach-IsCounted : (s : FlipDiagnostics) → Reach s → IsCounted s
unfolding new
Reach-IsCounted _ started = record { one_each = refl; total = omega arith }
Reach-IsCounted _ (accepted s now r) =
    let (each, total) = record_accepted-counters s now in
    let c = Reach-IsCounted s r in
    record { one_each = rw each c.one_each; total = rw (each, total) c.total }
Reach-IsCounted _ (dropped s now reason item_name detail r) =
    let (each, total) = record_drop_detailed-counters s now reason item_name detail in
    let c = Reach-IsCounted s r in
    record {
      one_each = rw each (length-bump_at (index reason) s.dropped ∙ c.one_each);
      total =
          rw (each, total)
            (omega (
              arith,
              c.total,
              c.one_each,
              index_lt reason,
              sum-bump_at (index reason) s.dropped (omega (arith, c.one_each, index_lt reason)),
            ));
    }

-- After a drop, the last drop is that one, seen from any later reading of the clock, and the time
-- since the last accepted flip is what it was; after an accepted flip it is the other way round.
pub last_drop-record_drop_detailed :
    (s : FlipDiagnostics) (now later : ℕ) (r : FlipDropReason) (item_name : Text)
    (detail : Option Text)
    → s.poisoned ≡ false
    → let (s', _) = record_drop_detailed s now r item_name detail in
      (last_drop s' later ≡ some (r, secs_between now later))
      × (secs_since_accepted s' later ≡ secs_since_accepted s later)
      × (last_drop (record_accepted s now) later ≡ last_drop s later)
      × (secs_since_accepted (record_accepted s now) later ≡ some (secs_between now later))
unfolding last_drop secs_since_accepted record_drop_detailed record_accepted
last_drop-record_drop_detailed s now later r item_name detail p =
    elim (Bool-cases (is_due now r s.inner.last_logged)) [
      | inl d ↦ rw (p, d) (refl, refl, refl, refl)
      | inr d ↦ rw (p, d) (refl, refl, refl, refl)
    ]
