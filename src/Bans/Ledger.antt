-- ===== src/Bans/Ledger.antt =====
-- src/webhook.rs: the ledger of the bans that were announced.
use escrow.Common.{
  ℕ, ◌≡◌, refl, sym, ◌≢◌, inl, inr, Bool, true, false, Option, none, some, List, [], ◌∷◌, ◌++◌, map,
  arith, Bool-cases, or_else, lookup, insert, lookup-insert, text_keys, side_keys, nat_eq, Text,
  codes, text_eq, text_eq_refl, text_eq_eq,
}
use escrow.Strings.{to_ascii_lowercase}
use escrow.Bans.{
  ParsedBan, ban_is_recent, ban_identity, Notified, Ledger, Write, written, is_same,
  claim_ban_notification, should_notify_ban,
}

abbrev pub key_of : Text → Text
key_of ingame_name = map to_ascii_lowercase ingame_name

-- A ban that is detected: the name of the account, the ban, the time, and how the write ends.
pub record Detected : Type 0 where
  pub ingame_name : Text
  pub parsed : ParsedBan
  pub now : ℕ
  pub write : Write

-- What the file holds after the bans, and which of them were announced.
abbrev pub notify_all : ℕ → Option Ledger → List Detected → Option Ledger × List Bool
notify_all max_age file [] = (file, [])
notify_all max_age file (d ∷ ds) =
    let (next, told) = should_notify_ban max_age d.write d.now file d.ingame_name d.parsed in
    let (last, tolds) = notify_all max_age next ds in (last, told ∷ tolds)

-- Of the bans that are detected, those of one account are all one ban, and every write succeeds.
abbrev pub IsOneBan : Text → Text → List Detected → Type 0
IsOneBan key identity [] = Unit
IsOneBan key identity (d ∷ ds) =
    (key_of d.ingame_name ≡ key → ban_identity d.parsed ≡ identity)
    × (d.write ≡ written)
    × IsOneBan key identity ds

-- No ban of the account is announced.
abbrev pub IsSilent : Text → List Detected → List Bool → Type 0
IsSilent key (d ∷ ds) (told ∷ tolds) =
    (key_of d.ingame_name ≡ key → told ≡ false) × IsSilent key ds tolds
IsSilent key _ _ = Unit

-- What the file says of an account.
abbrev pub noted_for : Text → Option Ledger → Option Notified
noted_for key file = lookup key (or_else file [])

should_notify_ban-known :
    (max_age now : ℕ) (write : Write) (file : Option Ledger) (name : Text) (parsed : ParsedBan)
    → is_same (ban_identity parsed) (noted_for (key_of name) file) ≡ true
    → should_notify_ban max_age write now file name parsed ≡ (file, false)
unfolding should_notify_ban claim_ban_notification
should_notify_ban-known max_age now write file name parsed h =
    elim (Bool-cases (ban_is_recent max_age parsed)) [ inl e ↦ rw (e, h) refl | inr e ↦ rw e refl ]

noted_for-should_notify_ban :
    (max_age now : ℕ) (file : Option Ledger) (key name : Text) (parsed : ParsedBan)
    → text_eq (key_of name) key ≡ false
    → noted_for key (should_notify_ban max_age written now file name parsed).0 ≡ noted_for key file
unfolding should_notify_ban claim_ban_notification
noted_for-should_notify_ban max_age now file key name parsed h =
    elim (Bool-cases (ban_is_recent max_age parsed)) [
      | inr e ↦ rw e refl
      | inl e ↦ elim (Bool-cases (is_same (ban_identity parsed) (noted_for (key_of name) file))) [
        | inl s ↦ rw (e, s) refl
        | inr s ↦
            let entry : Notified = record { identity = ban_identity parsed; at = now } in
            rw (e, s, lookup-insert (key_of name) key entry (or_else file []), h) refl
      ]
    ]

-- One ban, when the ledger knows the account's.
known-repeated :
    (max_age : ℕ) (file : Option Ledger) (key identity : Text) (d : Detected)
    → is_same identity (noted_for key file) ≡ true
    → (key_of d.ingame_name ≡ key → ban_identity d.parsed ≡ identity)
    → d.write ≡ written
    → let r = should_notify_ban max_age d.write d.now file d.ingame_name d.parsed in
      (key_of d.ingame_name ≡ key → r.1 ≡ false) × (is_same identity (noted_for key r.0) ≡ true)
known-repeated max_age file key identity d h f w =
    elim (Bool-cases (text_eq (key_of d.ingame_name) key)) [
      | inl e ↦
          let same : key_of d.ingame_name ≡ key = text_eq_eq (key_of d.ingame_name) key e in
          let known =
            should_notify_ban-known max_age d.now d.write file d.ingame_name d.parsed
              (rw (same, f same) h) in
          rw known (λ k. refl, h)
      | inr e ↦ (
        λ k. absurd (ground (arith, rw k at e, text_eq_refl key)),
        rw (w, noted_for-should_notify_ban max_age d.now file key d.ingame_name d.parsed e) h,
      )
    ]

notify_all-IsSilent :
    (max_age : ℕ) (file : Option Ledger) (key identity : Text) (ds : List Detected)
    → is_same identity (noted_for key file) ≡ true
    → IsOneBan key identity ds
    → IsSilent key ds (notify_all max_age file ds).1
notify_all-IsSilent max_age file key identity [] h f = tt
notify_all-IsSilent max_age file key identity (d ∷ ds) h (f, w, fs) =
    let first = known-repeated max_age file key identity d h f w in
    (
      first.0,
      notify_all-IsSilent max_age
          (should_notify_ban max_age d.write d.now file d.ingame_name d.parsed).0 key identity ds
          first.1 fs,
    )

-- A recent ban that is not the one noted for the account is announced, also if the ledger's file cannot
-- be read. While every write of the file succeeds, from this one on, and the file can be read again, none
-- of the bans that are detected for the account later, in any spelling of its name, is announced, if
-- they are all this one.
pub notify_all-should_notify_ban :
    (max_age now : ℕ) (file : Option Ledger) (name : Text) (parsed : ParsedBan)
    (later : List Detected)
    → ban_is_recent max_age parsed ≡ true
    → is_same (ban_identity parsed) (noted_for (key_of name) file) ≡ false
    → IsOneBan (key_of name) (ban_identity parsed) later
    → let r = should_notify_ban max_age written now file name parsed in
      (r.1 ≡ true) × IsSilent (key_of name) later (notify_all max_age r.0 later).1
unfolding should_notify_ban claim_ban_notification
notify_all-should_notify_ban max_age now file name parsed later e h f =
    let entry : Notified = record { identity = ban_identity parsed; at = now } in
    let after = insert (key_of name) entry (or_else file []) in
    let known : is_same (ban_identity parsed) (lookup (key_of name) after) ≡ true =
      rw
        (
          lookup-insert (key_of name) (key_of name) entry (or_else file []),
          text_eq_refl (key_of name),
        )
        (text_eq_refl (ban_identity parsed)) in
    rw (e, h)
      (
        refl,
        notify_all-IsSilent max_age (some after) (key_of name) (ban_identity parsed) later known f,
      )

-- A temporary ban without an id.
abbrev pub unnamed : Text → ParsedBan
unnamed left = record {
  is_permanent = false;
  is_security_ban = false;
  duration = some left;
  ban_id = none;
}

ban_identity-unnamed : (left : Text) → ban_identity (unnamed left) ≡ codes "temporary:" ++ left
unfolding ban_identity
ban_identity-unnamed left = refl

is_same-other :
    (first second : Text) (seen : Option Notified)
    → is_same (codes "temporary:" ++ first) seen ≡ true
    → first ≢ second
    → is_same (codes "temporary:" ++ second) seen ≡ false
is_same-other first second none h d = absurd (cc h)
is_same-other first second (some seen) h d = elim (Bool-cases (text_eq first second)) [
  | inl e ↦ absurd (d (text_eq_eq first second e))
  | inr e ↦ rw (text_eq_eq seen.identity (codes "temporary:" ++ first) h) e
]

-- A recent temporary ban that carries no id is announced again, although it was noted for the account,
-- when the time that is left of it has changed.
pub should_notify_ban_again :
    (max_age now : ℕ) (write : Write) (file : Option Ledger) (name first second : Text)
    → ban_is_recent max_age (unnamed second) ≡ true
    → is_same (ban_identity (unnamed first)) (noted_for (key_of name) file) ≡ true
    → first ≢ second
    → (should_notify_ban max_age write now file name (unnamed second)).1 ≡ true
unfolding should_notify_ban claim_ban_notification
should_notify_ban_again max_age now write file name first second e h d =
    let other =
      is_same-other first second (noted_for (key_of name) file)
        (rw (sym (ban_identity-unnamed first)) h) d in
    rw (e, ban_identity-unnamed second, other) refl
