-- ===== src/FlipDiag/Throttle.antt =====
-- src/state/flip_diag.rs: how often the drops of a reason are logged.
use escrow.Common.{
  ℕ, zero, suc, ◌+◌, ◌≤◌, ◌≡◌, refl, sym, ap, ◌∙◌, ◌≢◌, ◌⊎◌, inl, inr, true, false, Option, none,
  some, List, [], ◌∷◌, arith, ◌==◌, is_some, Bool-cases, length, text_keys, side_keys, nat_eq, Text,
}
use escrow.FlipDiag.{FlipDropReason, index, FlipDiagnostics, DropLog, is_due, record_drop_detailed}

pub record DropEvent : Type 0 where
  pub at : ℕ
  pub reason : FlipDropReason
  pub item_name : Text
  pub detail : Option Text

abbrev pub prepend : Option DropLog → List DropLog → List DropLog
prepend none ls = ls
prepend (some l) ls = l ∷ ls

-- Any number of drops, and the lines that they log.
abbrev pub run : FlipDiagnostics → List DropEvent → FlipDiagnostics × List DropLog
run s [] = (s, [])
run s (e ∷ es) =
    let (s', l) = record_drop_detailed s e.at e.reason e.item_name e.detail in
    let (s'', ls) = run s' es in (s'', prepend l ls)

-- A line is for another reason than the one before it, or two minutes after it at least.
abbrev pub Apart : Option (FlipDropReason × ℕ) → DropLog → Type 0
Apart none l = Unit {0}
Apart (some (r, at)) l = (r ≢ l.reason) ⊎ (at + 120_000_000_000 ≤ l.at)

abbrev pub IsSpaced : Option (FlipDropReason × ℕ) → List DropLog → Type 0
IsSpaced last [] = Unit {0}
IsSpaced last (l ∷ ls) = Apart last l × IsSpaced (some (l.reason, l.at)) ls

due-Apart :
    (last : Option (FlipDropReason × ℕ)) (l : DropLog)
    → is_due l.at l.reason last ≡ true
    → Apart last l
due-Apart none l h = tt
due-Apart (some (r, at)) l h = elim (Bool-cases (index r == index l.reason)) [
  | inl e ↦ inr (ground arith)
  | inr e ↦ inl (λ q. ground (arith, ap index q))
]

-- A drop that is not logged leaves the time of the last line as it is, and one that is logged was
-- due and sets it.
data Outcome (s : FlipDiagnostics) (now : ℕ) (r : FlipDropReason)
    : FlipDiagnostics × Option DropLog → Type 0 where
  silent :
      (s' : FlipDiagnostics)
      → s'.inner.last_logged ≡ s.inner.last_logged
      → Outcome s now r (s', none)
  logged :
      (s' : FlipDiagnostics) (l : DropLog)
      → (l.reason ≡ r) × (l.at ≡ now)
      → is_due now r s.inner.last_logged ≡ true
      → s'.inner.last_logged ≡ some (r, now)
      → Outcome s now r (s', some l)

record_drop_detailed-Outcome :
    (s : FlipDiagnostics) (now : ℕ) (r : FlipDropReason) (item_name : Text) (detail : Option Text)
    → Outcome s now r (record_drop_detailed s now r item_name detail)
unfolding record_drop_detailed
record_drop_detailed-Outcome s now r item_name detail = elim (Bool-cases s.poisoned) [
  | inl p ↦ rw p (silent _ refl)
  | inr p ↦ elim (Bool-cases (is_due now r s.inner.last_logged)) [
    | inl d ↦ rw (p, d) (logged _ _ (refl, refl) d refl)
    | inr d ↦ rw (p, d) (silent _ refl)
  ]
]

prepend-IsSpaced :
    (s : FlipDiagnostics) (now : ℕ) (r : FlipDropReason) (o : FlipDiagnostics × Option DropLog)
    (ls : List DropLog)
    → Outcome s now r o
    → IsSpaced o.0.inner.last_logged ls
    → IsSpaced s.inner.last_logged (prepend o.1 ls)
prepend-IsSpaced s now r _ ls (silent s' same) h = rw⁻¹ same h
prepend-IsSpaced s now r _ ls (logged s' l (reason, at) d last) h =
    (due-Apart s.inner.last_logged l (rw (reason, at) d), rw (reason, at) (rw last at h))

-- Of any run of drops, the lines in the log are spaced: a line for the same reason as the line
-- before it comes at least two minutes after it.
pub run-IsSpaced :
    (s : FlipDiagnostics) (es : List DropEvent) → IsSpaced s.inner.last_logged (run s es).1
run-IsSpaced s [] = tt
run-IsSpaced s (e ∷ es) =
    let o = record_drop_detailed s e.at e.reason e.item_name e.detail in
    prepend-IsSpaced s e.at e.reason o (run o.0 es).1
      (record_drop_detailed-Outcome s e.at e.reason e.item_name e.detail) (run-IsSpaced o.0 es)

-- Drops for two reasons in turn, all at one time.
abbrev pub alternating : ℕ → ℕ → Text → FlipDropReason → FlipDropReason → List DropEvent
alternating zero now item_name a b = []
alternating (suc n) now item_name a b =
    record { at = now; reason = a; item_name = item_name; detail = none }
    ∷ alternating n now item_name b a

-- A drop that is due is logged.
due_logged :
    (s : FlipDiagnostics) (now : ℕ) (r : FlipDropReason) (item_name : Text)
    → s.poisoned ≡ false
    → is_due now r s.inner.last_logged ≡ true
    → let (s', l) = record_drop_detailed s now r item_name none in
      (is_some l ≡ true) × (s'.poisoned ≡ false) × (s'.inner.last_logged ≡ some (r, now))
unfolding record_drop_detailed
due_logged s now r item_name p d = rw (p, d) (refl, refl, refl)

length-prepend :
    (l : Option DropLog) (ls : List DropLog)
    → is_some l ≡ true
    → length (prepend l ls) ≡ suc (length ls)
length-prepend none ls h = cc
length-prepend (some l) ls h = refl

-- When two reasons block flips in turn, every single drop is logged, even if all come at the same
-- instant: there are as many lines as drops.
pub length-run-alternating :
    (n : ℕ) (s : FlipDiagnostics) (now : ℕ) (item_name : Text) (a b : FlipDropReason)
    → s.poisoned ≡ false
    → is_due now a s.inner.last_logged ≡ true
    → index a ≢ index b
    → length (run s (alternating n now item_name a b)).1 ≡ n
length-run-alternating zero s now item_name a b p d ne = refl
length-run-alternating (suc n) s now item_name a b p d ne =
    let o = record_drop_detailed s now a item_name none in
    let (shown, ok, last) = due_logged s now a item_name p d in
    let due : is_due now b o.0.inner.last_logged ≡ true = rw last (ground (arith, ne)) in
    length-prepend o.1 (run o.0 (alternating n now item_name b a)).1 shown
    ∙ ap suc (length-run-alternating n o.0 now item_name b a ok due (λ q. ne (sym q)))
