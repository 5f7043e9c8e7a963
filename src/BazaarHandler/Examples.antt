-- ===== src/BazaarHandler/Examples.antt =====
-- src/handlers/bazaar_flip_handler.rs: examples.
use escrow.Common.{
  ℕ, suc, ◌+◌, ◌≤◌, ◌<◌, ◌≡◌, refl, ◌⊎◌, inl, true, Option, none, some, [], ◌∷◌, arith, ◌==◌,
  if◌then◌else◌, length, text_keys, side_keys, nat_eq, Text, codes,
}
use escrow.Types.{idle, startup}
use escrow.Strings.{byte_len}
use escrow.BazaarHandler.{
  BazaarFlipRecommendation, new, execute_bazaar_flip, handle_bazaar_flip_recommendation,
}
use escrow.BazaarHandler.Retries.{rounds, doubling, times, before_last, execute_bazaar_flip-IsRun}
use escrow.BazaarHandler.Distance.{levenshtein_distance}
use escrow.BazaarHandler.Distance.Scripts.{
  Script, done, keep, swap, add, distance, levenshtein_distance-distance,
}
use escrow.BazaarHandler.Distance.Panics.{levenshtein_distance-none}

-- The first attempt times out.
abbrev slow : ℕ → Text → Option Text
slow i command = if i == 1 then some (codes "Window timed out") else none

abbrev cane : BazaarFlipRecommendation
cane = record {
  item_name = codes "sugar cane";
  item_tag = some (codes "SUGAR_CANE");
  amount = 64;
  price_per_unit = 0;
  total_price = none;
  is_buy_order = true;
  is_sell = none;
}

second_attempt : (execute_bazaar_flip slow (codes "/bz X")).delays ≡ 1000 ∷ []
unfolding execute_bazaar_flip
second_attempt = refl

by_tag :
    (handle_bazaar_flip_recommendation (λ t. t) slow (new 120_000_000_000) cane idle).sent
    ≡ codes "/bz SUGAR_CANE" ∷ codes "/bz SUGAR_CANE" ∷ []
unfolding handle_bazaar_flip_recommendation new
by_tag = refl

ignored :
    (handle_bazaar_flip_recommendation (λ t. t) slow (new 120_000_000_000) cane startup).sent ≡ []
unfolding handle_bazaar_flip_recommendation new
ignored = refl

execute_bazaar_flip-IsRun_example :
    let command = codes "/bz X" in
    let n = before_last (λ i. slow i command) 2 1 in
    let r = execute_bazaar_flip slow command in
    (n ≤ 2)
    × (r.result ≡ slow (1 + n) command)
    × (r.sent ≡ times (suc n) command)
    × (r.delays ≡ doubling n 1000)
    × (r.states ≡ rounds (suc n))
execute_bazaar_flip-IsRun_example = execute_bazaar_flip-IsRun slow (codes "/bz X")

kitten_sitting : Script (codes "kitten") (codes "sitting") 3
kitten_sitting =
    swap b'k' b's' (keep b'i' (keep b't' (keep b't' (swap b'e' b'i' (keep b'n' (add b'g' done))))))

three_edits : levenshtein_distance (codes "kitten") (codes "sitting") ≡ some 3
unfolding levenshtein_distance
three_edits = refl

levenshtein_distance-distance_example :
    (levenshtein_distance (codes "kitten") (codes "sitting")
      ≡ some (distance (codes "kitten") (codes "sitting")))
    × Script (codes "kitten") (codes "sitting") (distance (codes "kitten") (codes "sitting"))
    × (distance (codes "kitten") (codes "sitting") ≤ 3)
levenshtein_distance-distance_example =
    levenshtein_distance-distance (codes "kitten") (codes "sitting") refl refl kitten_sitting

-- The second letter takes two bytes.
abbrev accented : Text
accented = b'p' ∷ 0xE9 ∷ []

accented-longer :
    (length accented < byte_len accented) ⊎ (length (codes "pe") < byte_len (codes "pe"))
accented-longer = inl (omega arith)

levenshtein_distance-none_example : levenshtein_distance accented (codes "pe") ≡ none
levenshtein_distance-none_example =
    levenshtein_distance-none accented (codes "pe") (λ h. cc h) (λ h. cc h) accented-longer
