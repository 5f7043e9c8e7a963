-- ===== src/Restart/Flips.antt =====
-- src/main.rs: a tracked flip across a restart.
use escrow.Common.{
  ℕ, ◌+◌, ◌-◌, ◌*◌, ◌/◌, ◌≤◌, ◌≡◌, refl, ap, ◌∙◌, true, false, Option, none, some, arith, ltb,
  lookup, DistinctKeys, text_keys, side_keys, nat_eq, Text, text_eq,
}
use escrow.Types.{F64, Instant}
use escrow.Restart.{
  keep_values, TrackedFlip, FlipTracker, FlipFile, max_tracked_flip_age_secs, elapsed_secs, stamp,
  saved_entry, load_flip_tracker_file, save_flip_tracker, anchor, restore_flip_tracker,
}
use escrow.Restart.Entries.{
  and_then, reread_restored, lookup-restore_flip_tracker, lookup-with_snapshot, IsMillis, IsReread,
  reread_flip_same,
}

-- The flip, its price, and an age of so many seconds at the instant `mono`.
abbrev pub IsCarried : ℕ → Instant → TrackedFlip → Option TrackedFlip → Type 0
IsCarried age mono t none = ⊥
IsCarried age mono t (some r) =
    (r.flip ≡ t.flip) × (r.buy_price ≡ t.buy_price) × (elapsed_secs mono r.purchased ≡ age)

-- The seconds that have passed since the purchase when the bot is up again.
abbrev pub age_after : ℕ → ℕ → Instant → TrackedFlip → ℕ
age_after wall wall' mono t = (wall' - wall) + elapsed_secs mono t.purchased

stamp-age : (wall wall' e : ℕ) → e ≤ wall → wall ≤ wall' → wall' - (wall - e) ≡ (wall' - wall) + e
stamp-age wall wall' e h k = omega (arith, h, k)

whole_seconds :
    (mono age : ℕ)
    → age * 1_000_000_000 ≤ mono
    → (mono - (mono - age * 1_000_000_000)) / 1_000_000_000 ≡ age
whole_seconds mono age h = omega (arith, h)

anchor-some :
    (checked_sub : Instant → ℕ → Option Instant) (wall : ℕ) (mono : Instant) (ts age : ℕ)
    (u : Instant)
    → wall - ts ≡ age
    → checked_sub mono age ≡ some u
    → anchor checked_sub wall mono ts ≡ u
anchor-some checked_sub wall mono ts age u e c = rw (anchor, e, c) refl

restored-IsCarried :
    (reread_f64 : F64 → Option F64) (checked_sub : Instant → ℕ → Option Instant) (wall wall' : ℕ)
    (mono mono' : Instant) (t : TrackedFlip)
    → IsMillis t.flip.purchase_at_ms
    → IsReread reread_f64 t.flip.profit_perc
    → ltb 0 t.buy_price ≡ true
    → elapsed_secs mono t.purchased ≤ wall
    → wall ≤ wall'
    → age_after wall wall' mono t ≤ max_tracked_flip_age_secs
    → age_after wall wall' mono t * 1_000_000_000 ≤ mono'
    → checked_sub mono' (age_after wall wall' mono t)
      ≡ some (mono' - age_after wall wall' mono t * 1_000_000_000)
    → IsCarried
        (age_after wall wall' mono t)
        mono'
        t
        (and_then (saved_entry wall mono t) (reread_restored reread_f64 checked_sub wall' mono'))
restored-IsCarried reread_f64 checked_sub wall wall' mono mono' t p q b h k a m c =
    let young : ltb max_tracked_flip_age_secs (age_after wall wall' mono t) ≡ false =
      ground (arith, a) in
    let at_purchase =
      anchor-some checked_sub wall' mono' (stamp wall mono t.purchased)
        (age_after wall wall' mono t) (mono' - age_after wall wall' mono t * 1_000_000_000)
        (stamp-age wall wall' (elapsed_secs mono t.purchased) h k) c in
    rw (b, stamp-age wall wall' (elapsed_secs mono t.purchased) h k, young)
      (
        reread_flip_same reread_f64 t.flip p q,
        refl,
        ap (λ i. elapsed_secs mono' i) at_purchase
            ∙ whole_seconds mono' (age_after wall wall' mono t) m,
      )

-- A flip that was bought, and that is at most seven days old when the bot is up again, is found in
-- the tracker after the restart as it was, with its price, and the time since its purchase goes on
-- counting through the restart. Its own `purchaseAt` must be missing or be read as milliseconds, and its
-- percentage be read back as it was written; the clocks must go forward, and the instant of the purchase
-- be one that the restarted clock can name. For the other accounts the file holds what was read of it.
pub restore_flip_tracker-save_flip_tracker :
    (reread_f64 : F64 → Option F64) (checked_sub : Instant → ℕ → Option Instant) (wall wall' : ℕ)
    (mono mono' : Instant) (file : Option FlipFile) (ign key : Text) (tracker : FlipTracker)
    (t : TrackedFlip)
    → DistinctKeys tracker
    → lookup key tracker ≡ some t
    → IsMillis t.flip.purchase_at_ms
    → IsReread reread_f64 t.flip.profit_perc
    → ltb 0 t.buy_price ≡ true
    → elapsed_secs mono t.purchased ≤ wall
    → wall ≤ wall'
    → age_after wall wall' mono t ≤ max_tracked_flip_age_secs
    → age_after wall wall' mono t * 1_000_000_000 ≤ mono'
    → checked_sub mono' (age_after wall wall' mono t)
      ≡ some (mono' - age_after wall wall' mono t * 1_000_000_000)
    → let saved = save_flip_tracker reread_f64 wall mono file ign tracker in
      IsCarried
        (age_after wall wall' mono t)
        mono'
        t
        (lookup key (restore_flip_tracker checked_sub reread_f64 wall' mono' (some saved) ign))
      × ((other : Text)
          → text_eq ign other ≡ false
          → lookup other saved ≡ lookup other (load_flip_tracker_file reread_f64 file))
unfolding save_flip_tracker
restore_flip_tracker-save_flip_tracker reread_f64 checked_sub wall wall' mono mono' file ign key
      tracker t d l p q b h k a m c =
    (
      rw
          (
            lookup-restore_flip_tracker reread_f64 checked_sub wall wall' mono mono' file ign key
                tracker d,
            l,
          )
          (restored-IsCarried reread_f64 checked_sub wall wall' mono mono' t p q b h k a m c),
      λ other e.
          lookup-with_snapshot ign other (keep_values (saved_entry wall mono) tracker)
            (load_flip_tracker_file reread_f64 file) e,
    )
