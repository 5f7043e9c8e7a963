-- ===== src/Session.antt =====
-- src/session.rs and src/visitfriend.rs: the marker of an account switch, and the visit of a friend's
-- island. The marker's file may be missing, hold no account, or name one.
use escrow.Common.{
  ℕ, ◌-◌, ◌/◌, ◌≤◌, ◌≡◌, refl, inl, inr, Bool, true, false, Option, none, some, List, [], ◌∷◌,
  arith, leb, if◌then◌else◌, Bool-cases, count, text_keys, side_keys, nat_eq, Text, text_eq,
}
use escrow.Types.{Instant}
use escrow.Strings.{trim}

pub data MarkerFile : Type 0 where
  missing nameless : MarkerFile
  marker : (ign : Text) → MarkerFile

unfoldable pub write_account_switch_marker : Text → MarkerFile
write_account_switch_marker ign = marker ign

abbrev pub taken : Bool → Text → MarkerFile × Bool
taken true ign = (missing, true)
taken false ign = (marker ign, false)

unfoldable pub take_account_switch : MarkerFile → Text → MarkerFile × Bool
take_account_switch missing ign = (missing, false)
take_account_switch nameless ign = (nameless, false)
take_account_switch (marker named) ign = taken (text_eq named ign) named

-- Over a marker, whoever asks and however often, a switch is seen at most once.
abbrev pub take_all : MarkerFile → List Text → List Bool
take_all file [] = []
take_all file (ign ∷ igns) =
    let (next, seen) = take_account_switch file ign in seen ∷ take_all next igns

abbrev is_true : Bool → Bool
is_true b = b

take_all-missing : (igns : List Text) → count is_true (take_all missing igns) ≡ 0
unfolding take_account_switch
take_all-missing [] = refl
take_all-missing (i ∷ igns) = take_all-missing igns

take_all-write_account_switch_marker :
    (ign : Text) (igns : List Text)
    → count is_true (take_all (write_account_switch_marker ign) igns) ≤ 1
unfolding take_account_switch write_account_switch_marker
take_all-write_account_switch_marker ign [] = omega arith
take_all-write_account_switch_marker ign (i ∷ igns) = elim (Bool-cases (text_eq ign i)) [
  | inl e ↦ rw e (omega (arith, take_all-missing igns))
  | inr e ↦ rw e (take_all-write_account_switch_marker ign igns)
]

pub record Visit : Type 0 where
  pub friend : Option Text
  pub disabled_for_session : Bool
  pub last_attempt : Option Instant

abbrev pub named : Text → Option Text
named [] = none
named (c ∷ cs) = some (c ∷ cs)

unfoldable pub configure : Option Text → Visit
unfolding trim
configure friend = record {
  friend = (elim friend [ none ↦ none | some s ↦ named (trim s) ]);
  disabled_for_session = false;
  last_attempt = none;
}

abbrev pub configured_friend : Visit → Option Text
configured_friend s = s.friend

unfoldable pub active_friend : Visit → Option Text
active_friend s = if s.disabled_for_session then none else configured_friend s

unfoldable pub disable_for_session : Visit → Visit
disable_for_session s = record s { disabled_for_session = true }

unfoldable pub note_attempt : Instant → Visit → Visit
note_attempt now s = record s { last_attempt = some now }

unfoldable pub recently_attempted : Instant → ℕ → Visit → Bool
recently_attempted now within_secs s = elim s.last_attempt [
  | none ↦ false
  | some t ↦ leb ((now - t) / 1_000_000_000) within_secs
]
