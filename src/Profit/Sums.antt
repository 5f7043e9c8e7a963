-- ===== src/Profit/Sums.antt =====
-- src/profit.rs: the totals of a session as sums of what was recorded in it.
use escrow.Common.{
  ℕ, ◌≡◌, refl, ap, ◌∙◌, inl, inr, false, Option, List, [], ◌∷◌, or_else, Bool-cases, text_keys,
  side_keys, nat_eq, ℤ, pos, wrapping_add, wrapping_sub, wrapping_sub_self, wrapping_sub_shift,
}
use escrow.Profit.{
  ProfitTrackerInner, ProfitTracker, empty_inner, load_or_new, persist_locked, record_ah_profit,
  record_bz_profit, session_totals,
}

-- The profits of a session, in the order in which they are recorded.
pub data ProfitEvent : Type 0 where
  ah_profit bz_profit : ℕ → ℤ → ProfitEvent

abbrev pub record_all : ProfitTracker → List ProfitEvent → ProfitTracker
record_all s [] = s
record_all s (ah_profit now p ∷ es) = record_all (record_ah_profit s now p) es
record_all s (bz_profit now p ∷ es) = record_all (record_bz_profit s now p) es

-- Their sums.
abbrev pub sums : ℤ × ℤ → List ProfitEvent → ℤ × ℤ
sums t [] = t
sums t (ah_profit now p ∷ es) = sums (wrapping_add t.0 p, t.1) es
sums t (bz_profit now p ∷ es) = sums (t.0, wrapping_add t.1 p) es

record_ah_profit-session_totals :
    (s : ProfitTracker) (now : ℕ) (p : ℤ)
    → s.poisoned ≡ false
    → ((record_ah_profit s now p).poisoned ≡ false)
      × (session_totals (record_ah_profit s now p)
          ≡ (wrapping_add (session_totals s).0 p, (session_totals s).1))
unfolding record_ah_profit session_totals persist_locked
record_ah_profit-session_totals s now p h =
    let shift = wrapping_sub_shift s.inner.ah_total p s.session_ah_baseline in
    elim (Bool-cases s.has_writer) [
      | inl e ↦
          rw (h, e) (refl, ap (λ x. (x, wrapping_sub s.inner.bz_total s.session_bz_baseline)) shift)
      | inr e ↦
          rw (h, e) (refl, ap (λ x. (x, wrapping_sub s.inner.bz_total s.session_bz_baseline)) shift)
    ]

record_bz_profit-session_totals :
    (s : ProfitTracker) (now : ℕ) (p : ℤ)
    → s.poisoned ≡ false
    → ((record_bz_profit s now p).poisoned ≡ false)
      × (session_totals (record_bz_profit s now p)
          ≡ ((session_totals s).0, wrapping_add (session_totals s).1 p))
unfolding record_bz_profit session_totals persist_locked
record_bz_profit-session_totals s now p h =
    let shift = wrapping_sub_shift s.inner.bz_total p s.session_bz_baseline in
    elim (Bool-cases s.has_writer) [
      | inl e ↦
          rw (h, e) (refl, ap (λ x. (wrapping_sub s.inner.ah_total s.session_ah_baseline, x)) shift)
      | inr e ↦
          rw (h, e) (refl, ap (λ x. (wrapping_sub s.inner.ah_total s.session_ah_baseline, x)) shift)
    ]

record_all-session_totals :
    (s : ProfitTracker) (es : List ProfitEvent)
    → s.poisoned ≡ false
    → session_totals (record_all s es) ≡ sums (session_totals s) es
record_all-session_totals s [] h = refl
record_all-session_totals s (ah_profit now p ∷ es) h =
    let (ok, next) = record_ah_profit-session_totals s now p h in
    record_all-session_totals (record_ah_profit s now p) es ok ∙ ap (λ t. sums t es) next
record_all-session_totals s (bz_profit now p ∷ es) h =
    let (ok, next) = record_bz_profit-session_totals s now p h in
    record_all-session_totals (record_bz_profit s now p) es ok ∙ ap (λ t. sums t es) next

load_or_new-session_totals :
    (now : ℕ) (loaded : Option ProfitTrackerInner)
    → ((load_or_new now loaded).poisoned ≡ false)
      × (session_totals (load_or_new now loaded) ≡ (pos 0, pos 0))
unfolding load_or_new session_totals
load_or_new-session_totals now loaded =
    let found = or_else loaded (empty_inner now) in
    (
      refl,
      ap (λ x. (x, wrapping_sub found.bz_total found.bz_total)) (wrapping_sub_self found.ah_total)
          ∙ ap (λ x. (pos 0, x)) (wrapping_sub_self found.bz_total),
    )

-- Whatever the file held, the totals of a session are the sums of the profits that were recorded in
-- it, those of the auction house and those of the bazaar, in `i64` arithmetic that wraps.
pub session_totals-record_all :
    (now : ℕ) (loaded : Option ProfitTrackerInner) (es : List ProfitEvent)
    → session_totals (record_all (load_or_new now loaded) es) ≡ sums (pos 0, pos 0) es
session_totals-record_all now loaded es =
    let (ok, zero_totals) = load_or_new-session_totals now loaded in
    record_all-session_totals (load_or_new now loaded) es ok ∙ ap (λ t. sums t es) zero_totals
