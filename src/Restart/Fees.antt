-- ===== src/Restart/Fees.antt =====
-- src/main.rs: the fee of an auction and the promised profit.
use escrow.Common.{ℕ, ◌+◌, ◌*◌, ◌≤◌, ◌<◌, arith, text_keys, side_keys, nat_eq, u64_mod}
use escrow.Restart.{calculate_ah_fee}

-- The part of a price, in thousandths, that the documented tiers take: 1 %, from ten million coins on
-- 2 %, and from a hundred million on 2.5 %.
pub data Tier (price : ℕ) : ℕ → Type 0 where
  one_percent : price < 10_000_000 → Tier price 10
  two_percent : 10_000_000 ≤ price → price < 100_000_000 → Tier price 20
  two_and_a_half : 100_000_000 ≤ price → Tier price 25

-- `fee` is the whole coins in so many thousandths of the price.
abbrev pub IsPart : ℕ → ℕ → ℕ → Type 0
IsPart rate price fee = (fee * 1000 ≤ price * rate) × (price * rate < fee * 1000 + 1000)

calculate_ah_fee-IsPart :
    (p rate : ℕ) → Tier p rate → p * 25 < u64_mod → IsPart rate p (calculate_ah_fee p)
unfolding calculate_ah_fee
calculate_ah_fee-IsPart p _ (one_percent h) k = ground (arith, h, k)
calculate_ah_fee-IsPart p _ (two_percent l h) k = ground (arith, l, h, k)
calculate_ah_fee-IsPart p _ (two_and_a_half l) k = ground (arith, l, k)

calculate_ah_fee_mono :
    (p q : ℕ) → p ≤ q → q * 25 < u64_mod → calculate_ah_fee p ≤ calculate_ah_fee q
unfolding calculate_ah_fee
calculate_ah_fee_mono p q h k = ground (arith, h, k)

-- The fee of a price whose product with 25 is a `u64` is the whole coins in the part that the price's
-- tier takes, and no higher price, within that bound, has a lower fee.
pub calculate_ah_fee-bounds :
    (p q rate : ℕ)
    → Tier p rate
    → p ≤ q
    → q * 25 < u64_mod
    → IsPart rate p (calculate_ah_fee p) × (calculate_ah_fee p ≤ calculate_ah_fee q)
calculate_ah_fee-bounds p q rate t h k =
    (calculate_ah_fee-IsPart p rate t (omega (arith, h, k)), calculate_ah_fee_mono p q h k)
