-- ===== src/FlipHandler/Skips.antt =====
-- src/handlers/flip_handler.rs: when the confirm click is made ahead of time, and what is logged.
use escrow.Common.{
  ℕ, ◌+◌, ◌-◌, ◌≤◌, ◌<◌, ◌≡◌, ◌≢◌, Bool, true, false, some, arith, text_keys, side_keys, nat_eq,
  Text, u64_mod,
}
use escrow.Types.{Flip, F64}
use escrow.FlipHandler.{
  SkipConfig, FlipConfig, profit_of, should_skip_flip, SkipReason, unclear, log_skip_reason,
}

module _ (to_lowercase : Text → Text) (ge : F64 → F64 → Bool) where
  -- A skip reason that is logged as anything but unclear is one for which the flip is skipped.
  pub log_skip_reason-should_skip_flip :
      (config : FlipConfig) (flip : Flip) (profit : ℕ) (r : SkipReason)
      → log_skip_reason to_lowercase ge config flip profit ≡ some r
      → r ≢ unclear
      → should_skip_flip to_lowercase ge config flip profit ≡ true
  unfolding log_skip_reason should_skip_flip
  log_skip_reason-should_skip_flip config flip profit r h n = ground arith

  -- With a minimum profit that the flip does not reach, the logged reason is unclear, even where the
  -- flip is skipped because its price is high enough.
  pub log_skip_reason_unclear :
      (config : FlipConfig) (c : SkipConfig) (flip : Flip) (profit least price : ℕ)
      → config.skip ≡ some c
      → c.always ≡ false
      → c.min_profit ≡ some least
      → profit < least
      → c.min_price ≡ some price
      → price ≤ flip.starting_bid
      → (should_skip_flip to_lowercase ge config flip profit ≡ true)
        × (log_skip_reason to_lowercase ge config flip profit ≡ some unclear)
  unfolding log_skip_reason should_skip_flip
  log_skip_reason_unclear config c flip profit least price s a m l p q = ground arith

  -- A flip that would lose money is skipped as one whose profit is high, since the difference of the
  -- prices wraps: this holds for every minimum profit but those of the last few numbers of a `u64`.
  pub should_skip_flip-loss :
      (config : FlipConfig) (c : SkipConfig) (flip : Flip) (least : ℕ)
      → config.skip ≡ some c
      → c.min_profit ≡ some least
      → flip.target < flip.starting_bid
      → flip.starting_bid < u64_mod
      → least + (flip.starting_bid - flip.target) ≤ u64_mod
      → should_skip_flip to_lowercase ge config flip (profit_of flip) ≡ true
  unfolding should_skip_flip
  should_skip_flip-loss config c flip least s m l b h = ground arith
