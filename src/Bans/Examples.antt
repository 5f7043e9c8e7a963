-- ===== src/Bans/Examples.antt =====
-- src/webhook.rs: the announcement of a ban of thirty days.
use escrow.Common.{
  ◌+◌, ◌*◌, ◌≡◌, refl, ◌≢◌, true, false, none, some, [], ◌∷◌, arith, lookup, text_keys, side_keys,
  nat_eq, Text, codes, text_eq, text_eq_refl,
}
use escrow.Bans.{
  ParsedBan, parse_ban_duration_secs, ban_age_secs, ban_is_recent, ban_identity,
  claim_ban_notification, Ledger, written, write_failed, is_same, should_notify_ban,
}
use escrow.Bans.Durations.{duration_text, parse_ban_duration_secs-duration_text}
use escrow.Bans.Ledger.{
  key_of, noted_for, Detected, notify_all, IsSilent, notify_all-should_notify_ban, unnamed,
  should_notify_ban_again,
}

-- The examples of the source's comment.
two_seconds : ban_age_secs 2_591_998 ≡ 2
unfolding ban_age_secs
two_seconds = refl

no_unit : parse_ban_duration_secs (codes "soon") ≡ none
unfolding parse_ban_duration_secs
no_unit = refl

parse_ban_duration_secs-duration_text_example :
    parse_ban_duration_secs (duration_text 29 23 59 58)
    ≡ some (29 * 86_400 + 23 * 3_600 + 59 * 60 + 58)
parse_ban_duration_secs-duration_text_example =
    parse_ban_duration_secs-duration_text 29 23 59 58 (omega arith)

abbrev named : ParsedBan
named = record {
  is_permanent = false;
  is_security_ban = false;
  duration = some (codes "29d 23h 59m 58s");
  ban_id = some (codes "#AF4CD6A8");
}

named_is_recent : ban_is_recent 120 named ≡ true
unfolding ban_is_recent
named_is_recent = refl

abbrev rejoin : Detected
rejoin = record { ingame_name = codes "steve"; parsed = named; now = 160; write = written }

notify_all-should_notify_ban_example :
    (let r = should_notify_ban 120 written 100 none (codes "Steve") named in
      (r.1 ≡ true)
      × IsSilent (key_of (codes "Steve")) (rejoin ∷ []) (notify_all 120 r.0 (rejoin ∷ [])).1)
unfolding lookup
notify_all-should_notify_ban_example =
    notify_all-should_notify_ban 120 100 none (codes "Steve") named (rejoin ∷ []) named_is_recent
      refl (λ e. refl, refl, tt)

-- A write that fails may lose the ledger, and the ban is announced again.
announced_again :
    (should_notify_ban 120 written 160
      (should_notify_ban 120 (write_failed none) 100 none (codes "Steve") named).0
      (codes "Steve")
      named).1
    ≡ true
unfolding should_notify_ban claim_ban_notification ban_is_recent lookup
announced_again = refl

abbrev noted_ledger : Ledger
noted_ledger =
    (codes "steve", record { identity = codes "temporary:29d 23h 59m 58s"; at = 100 }) ∷ []

later_is_recent : ban_is_recent 120 (unnamed (codes "29d 23h 59m 57s")) ≡ true
unfolding ban_is_recent
later_is_recent = refl

is_noted :
    is_same
      (ban_identity (unnamed (codes "29d 23h 59m 58s")))
      (noted_for (key_of (codes "Steve")) (some noted_ledger))
    ≡ true
unfolding ban_identity lookup
is_noted = refl

apart : (a b : Text) → text_eq a b ≡ false → a ≢ b
apart a b h e = absurd (cc (rw e at h, text_eq_refl b))

should_notify_ban_again_example :
    (should_notify_ban 120 written 101
      (some noted_ledger)
      (codes "Steve")
      (unnamed (codes "29d 23h 59m 57s"))).1
    ≡ true
should_notify_ban_again_example =
    should_notify_ban_again 120 101 written (some noted_ledger) (codes "Steve")
      (codes "29d 23h 59m 58s") (codes "29d 23h 59m 57s") later_is_recent is_noted
      (apart (codes "29d 23h 59m 58s") (codes "29d 23h 59m 57s") refl)
