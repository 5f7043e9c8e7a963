-- ===== src/FlipDiag/Examples.antt =====
-- Tests of src/state/flip_diag.rs, and the witnesses of its theorems.
use escrow.Common.{◌≡◌, refl, true, false, List, text_keys, side_keys, nat_eq, codes}
use escrow.FlipDiag.{
  ah_disabled, new, is_due, record_accepted, record_drop, accepted_total, dropped_total,
  summary_line,
}
use escrow.FlipDiag.Throttle.{DropEvent, run, IsSpaced, run-IsSpaced, alternating}

nothing_seen : summary_line new 5 ≡ codes "flips: none seen yet this session"
unfolding summary_line new
nothing_seen = refl

healthy :
    summary_line (record_accepted new 5) 9 ≡ codes "flips: 1 bought, none skipped — intake healthy"
unfolding summary_line new record_accepted
healthy = refl

counted_once : dropped_total (record_drop new 5 ah_disabled (codes "Bow")).0 ≡ 1
unfolding dropped_total record_drop new
counted_once = refl

none_bought : accepted_total (record_drop new 5 ah_disabled (codes "Bow")).0 ≡ 0
unfolding accepted_total record_drop new
none_bought = refl

new_unpoisoned : new.poisoned ≡ false
unfolding new
new_unpoisoned = refl

new_due : is_due 7 ah_disabled new.inner.last_logged ≡ true
unfolding new
new_due = refl

abbrev two_drops : List DropEvent
two_drops = alternating 2 7 (codes "Bow") ah_disabled ah_disabled

run-IsSpaced_example : IsSpaced new.inner.last_logged (run new two_drops).1
run-IsSpaced_example = run-IsSpaced new two_drops
