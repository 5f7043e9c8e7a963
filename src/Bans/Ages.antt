-- ===== src/Bans/Ages.antt =====
-- src/webhook.rs: the age of a ban.
use escrow.Common.{
  ℕ, ◌+◌, ◌-◌, ◌%◌, ◌≡◌, refl, inl, inr, Bool, true, ◌&&◌, ◌||◌, none, some, arith, ltb, leb, ◌==◌,
  Option-cases, any, text_keys, side_keys, nat_eq,
}
use escrow.Bans.{
  hypixel_ban_ladder_secs, ban_age_secs, ban_notify_max_age_secs, ParsedBan, remaining_of,
  ban_is_recent,
}

-- Whether a time lies less than `max_age` seconds, or as many, below a rung.
abbrev pub is_just_below : ℕ → ℕ → ℕ → Bool
is_just_below max_age remaining rung = leb remaining rung && leb rung (remaining + max_age)

-- The time left of a ban that was issued just now.
abbrev pub is_fresh : ℕ → Bool
is_fresh remaining =
    any (is_just_below ban_notify_max_age_secs remaining) hypixel_ban_ladder_secs
    || (ltb 31_104_000 remaining
        && (remaining % 86_400 == 0 || leb (86_400 - ban_notify_max_age_secs) (remaining % 86_400)))

ban_age_secs-is_fresh :
    (remaining : ℕ) → leb (ban_age_secs remaining) ban_notify_max_age_secs ≡ is_fresh remaining
unfolding ban_age_secs
ban_age_secs-is_fresh remaining = ground arith

-- A ban whose time left can be read is recent when that time is at most two minutes below a length
-- that is issued or, beyond the longest of them, below a whole number of days. All others are recent.
pub ban_is_recent-is_fresh :
    (parsed : ParsedBan)
    → ban_is_recent ban_notify_max_age_secs parsed
      ≡ (elim (remaining_of parsed.duration) [ none ↦ true | some remaining ↦ is_fresh remaining ])
unfolding ban_is_recent
ban_is_recent-is_fresh parsed = elim (Option-cases (remaining_of parsed.duration)) [
  | inl e ↦ rw (ban_is_recent, e) refl
  | inr (remaining, e) ↦ rw (ban_is_recent, e) (ban_age_secs-is_fresh remaining)
]
