-- ===== src/Restart/Entries.antt =====
-- src/main.rs: the entries of the file of the tracked flips, as they are written and read back.
use escrow.Common.{
  ℕ, ◌≡◌, refl, sym, ap, ◌∙◌, inl, inr, true, false, Option, none, some, List, [], ◌∷◌, arith,
  or_else, ℤ, Bool-cases, lookup, lookup-insert, lookup-remove, DistinctKeys, text_keys, side_keys,
  nat_eq, Text, text_eq, text_eq_refl, text_eq_eq,
}
use mathlib.Core.Option
use escrow.Timestamps.{is_millis, deserialize_optional_timestamp_millis}
use escrow.Types.{F64, Flip, Instant}
use escrow.Restart.{
  keep_entry, keep_values, map_values, written_time, reread_percentage, reread_flip, reread_entry,
  TrackedFlip, TrackedFlipEntry, FlipTracker, FlipFile, saved_entry, load_flip_tracker_file,
  with_snapshot, save_flip_tracker, restored_entry, restored_entries, restore_flip_tracker,
}

abbrev pub and_then : {A B : Type 0} → Option A → (A → Option B) → Option B
and_then none f = none
and_then (some a) f = f a

module _ {W : Type 0} where
  lookup-keep_entry_other :
      (k j : Text) (o : Option W) (m : List (Text × W))
      → text_eq j k ≡ false
      → lookup k (keep_entry j o m) ≡ lookup k m
  unfolding lookup
  lookup-keep_entry_other k j none m h = refl
  lookup-keep_entry_other k j (some w) m h = rw h refl

  lookup-keep_entry :
      (k j : Text) (o : Option W) (m : List (Text × W))
      → text_eq j k ≡ true
      → lookup k m ≡ none
      → lookup k (keep_entry j o m) ≡ o
  unfolding lookup
  lookup-keep_entry k j none m h e = e
  lookup-keep_entry k j (some w) m h e = rw h refl

  keep_entry-DistinctKeys :
      (j : Text) (o : Option W) (m : List (Text × W))
      → lookup j m ≡ none
      → DistinctKeys m
      → DistinctKeys (keep_entry j o m)
  keep_entry-DistinctKeys j none m h d = d
  keep_entry-DistinctKeys j (some w) m h d = (h, d)

module _ {V W : Type 0} (f : V → Option W) where
  keep_values-none :
      (k : Text) (m : List (Text × V)) → lookup k m ≡ none → lookup k (keep_values f m) ≡ none
  unfolding keep_values lookup
  keep_values-none k [] h = refl
  keep_values-none k ((j, v) ∷ m) h = elim (Bool-cases (text_eq j k)) [
    | inl e ↦ absurd (ground (arith, rw e at h))
    | inr e ↦
        lookup-keep_entry_other k j (f v) (keep_values f m) e ∙ keep_values-none k m (rw e at h)
  ]

  lookup-keep_values :
      (k : Text) (m : List (Text × V))
      → DistinctKeys m
      → lookup k (keep_values f m) ≡ and_then (lookup k m) f
  unfolding keep_values lookup
  lookup-keep_values k [] d = refl
  lookup-keep_values k ((j, v) ∷ m) (d, ds) = elim (Bool-cases (text_eq j k)) [
    | inl e ↦
        let absent : lookup k m ≡ none = ap (λ i. lookup i m) (sym (text_eq_eq j k e)) ∙ d in
        rw e (lookup-keep_entry k j (f v) (keep_values f m) e (keep_values-none k m absent))
    | inr e ↦
        rw e (lookup-keep_entry_other k j (f v) (keep_values f m) e ∙ lookup-keep_values k m ds)
  ]

  keep_values-DistinctKeys : (m : List (Text × V)) → DistinctKeys m → DistinctKeys (keep_values f m)
  unfolding keep_values
  keep_values-DistinctKeys [] d = tt
  keep_values-DistinctKeys ((j, v) ∷ m) (d, ds) =
      keep_entry-DistinctKeys j (f v) (keep_values f m) (keep_values-none j m d)
        (keep_values-DistinctKeys m ds)

lookup-map_values :
    {V W : Type 0} (f : V → W) (k : Text) (m : List (Text × V))
    → lookup k (map_values f m) ≡ Option.map f (lookup k m)
unfolding lookup
lookup-map_values f k [] = refl
lookup-map_values f k ((j, v) ∷ m) = elim (Bool-cases (text_eq j k)) [
  | inl e ↦ rw e refl
  | inr e ↦ rw e (lookup-map_values f k m)
]

keep_values-map_values :
    {U V W : Type 0} (f : V → Option W) (g : U → V) (m : List (Text × U))
    → keep_values f (map_values g m) ≡ keep_values (λ u. f (g u)) m
unfolding keep_values
keep_values-map_values f g [] = refl
keep_values-map_values f g ((k, u) ∷ m) =
    ap (λ r. keep_entry k (f (g u)) r) (keep_values-map_values f g m)

module _ (reread_f64 : F64 → Option F64) (checked_sub : Instant → ℕ → Option Instant) where
  -- An entry that was written, as the restart takes it in.
  abbrev pub reread_restored : ℕ → Instant → TrackedFlipEntry → Option TrackedFlip
  reread_restored wall mono e = restored_entry checked_sub wall mono (reread_entry reread_f64 e)

  restored_entries-with_snapshot :
      (wall : ℕ) (mono : Instant) (ign : Text) (es : List (Text × TrackedFlipEntry))
      (file : FlipFile)
      → restored_entries checked_sub wall mono (
          Option.map
            (map_values (reread_entry reread_f64))
            (lookup ign (with_snapshot ign es file)))
        ≡ keep_values (reread_restored wall mono) es
  unfolding keep_values
  restored_entries-with_snapshot wall mono ign [] file =
      rw (lookup-remove ign ign file, text_eq_refl ign) refl
  restored_entries-with_snapshot wall mono ign (e ∷ es) file =
      rw (lookup-insert ign ign (e ∷ es) file, text_eq_refl ign)
        (keep_values-map_values (restored_entry checked_sub wall mono) (reread_entry reread_f64)
          (e ∷ es))

  pub lookup-restore_flip_tracker :
      (wall wall' : ℕ) (mono mono' : Instant) (file : Option FlipFile) (ign key : Text)
      (tracker : FlipTracker)
      → DistinctKeys tracker
      → lookup key (
          restore_flip_tracker checked_sub reread_f64 wall' mono'
            (some (save_flip_tracker reread_f64 wall mono file ign tracker))
            ign)
        ≡ and_then
            (and_then (lookup key tracker) (saved_entry wall mono))
            (reread_restored wall' mono')
  unfolding restore_flip_tracker save_flip_tracker
  lookup-restore_flip_tracker wall wall' mono mono' file ign key tracker d =
      let saved = keep_values (saved_entry wall mono) tracker in
      let others = load_flip_tracker_file reread_f64 file in
      ap (λ o. lookup key (restored_entries checked_sub wall' mono' o))
        (lookup-map_values (map_values (reread_entry reread_f64)) ign
          (with_snapshot ign saved others))
      ∙ ap (λ m. lookup key m) (restored_entries-with_snapshot wall' mono' ign saved others)
      ∙ lookup-keep_values (reread_restored wall' mono') key saved
          (keep_values-DistinctKeys (saved_entry wall mono) tracker d)
      ∙ ap (λ o. and_then o (reread_restored wall' mono'))
          (lookup-keep_values (saved_entry wall mono) key tracker d)

pub lookup-with_snapshot :
    (ign other : Text) (es : List (Text × TrackedFlipEntry)) (file : FlipFile)
    → text_eq ign other ≡ false
    → lookup other (with_snapshot ign es file) ≡ lookup other file
lookup-with_snapshot ign other [] file h = rw (lookup-remove ign other file, h) refl
lookup-with_snapshot ign other (e ∷ es) file h = rw (lookup-insert ign other (e ∷ es) file, h) refl

-- A time of purchase in milliseconds, if there is one.
abbrev pub IsMillis : Option ℤ → Type 0
IsMillis none = Unit
IsMillis (some v) = is_millis v ≡ true

-- What is read back of the percentage is the percentage.
abbrev pub IsReread : (F64 → Option F64) → Option F64 → Type 0
IsReread reread_f64 none = Unit
IsReread reread_f64 (some x) = reread_f64 x ≡ some x

reread_time :
    (o : Option ℤ)
    → IsMillis o
    → or_else (deserialize_optional_timestamp_millis (λ _. none) (written_time o)) none ≡ o
unfolding deserialize_optional_timestamp_millis
reread_time none h = refl
reread_time (some v) h = rw h refl

reread_percentage_same :
    (reread_f64 : F64 → Option F64) (o : Option F64)
    → IsReread reread_f64 o
    → reread_percentage reread_f64 o ≡ o
reread_percentage_same reread_f64 none h = refl
reread_percentage_same reread_f64 (some x) h = h

pub reread_flip_same :
    (reread_f64 : F64 → Option F64) (f : Flip)
    → IsMillis f.purchase_at_ms
    → IsReread reread_f64 f.profit_perc
    → reread_flip reread_f64 f ≡ f
reread_flip_same reread_f64 f h k =
    rw (reread_time f.purchase_at_ms h, reread_percentage_same reread_f64 f.profit_perc k) refl
