-- ===== src/Ownership/Names.antt =====
-- src/auction_ownership.rs: normalised item names, and when two of them match.
use escrow.Common.{
  ℕ, ◌<◌, ◌≡◌, refl, ◌∙◌, ◌⊎◌, inl, inr, Bool, true, false, not, ◌&&◌, [], ◌∷◌, arith, ◌==◌,
  Bool-cases, text_keys, side_keys, nat_eq, Text, text_eq, text_eq_refl, text_eq_sym,
}
use escrow.Strings.{
  is_whitespace, trim_start, trim_end, contains, byte_len, is_ascii_alphanumeric,
  to_ascii_lowercase, remove_minecraft_colors, starts_with,
}
use escrow.Strings.Trimming.{trim_end_idem, trim_end-cons}
use escrow.Strings.Colors.{NoMarks, remove_minecraft_colors_id}
use escrow.Ownership.{collapse, normalize_item_name, names_match, is_empty_text}

-- A letter or digit as it stands in a normalised name.
abbrev pub is_plain : ℕ → Bool
is_plain c = is_ascii_alphanumeric c && (to_ascii_lowercase c == c)

-- Plain characters, and single blanks between them; `last` says that a blank may not come first.
abbrev pub Clean : Bool → Text → Type 0
Clean last [] = Unit {0}
Clean last (c ∷ cs) =
    ((is_plain c ≡ true) × Clean false cs) ⊎ ((c ≡ b' ') × (last ≡ false) × Clean true cs)

plain-to_ascii_lowercase :
    (c : ℕ) → is_ascii_alphanumeric c ≡ true → is_plain (to_ascii_lowercase c) ≡ true
plain-to_ascii_lowercase c h = ground arith

collapse-Clean : (last : Bool) (s : Text) → Clean last (collapse last s)
unfolding collapse
collapse-Clean last [] = tt
collapse-Clean last (c ∷ cs) = elim (Bool-cases (is_ascii_alphanumeric c)) [
  | inl e ↦ rw e (inl (plain-to_ascii_lowercase c e, collapse-Clean false cs))
  | inr e ↦ elim (Bool-cases last) [
    | inl l ↦ rw (e, l) (collapse-Clean true cs)
    | inr l ↦ rw (e, l) (inr (refl, refl, collapse-Clean true cs))
  ]
]

collapse_id : (last : Bool) (s : Text) → Clean last s → collapse last s ≡ s
unfolding collapse
collapse_id last [] h = refl
collapse_id last (c ∷ cs) (inl h) = ground (arith, collapse_id false cs)
collapse_id last (c ∷ cs) (inr h) = ground (arith, collapse_id true cs)

trim_end-Clean : (last : Bool) (s : Text) → Clean last s → Clean last (trim_end s)
trim_end-Clean last [] h = unfold trim_end in tt
trim_end-Clean last (c ∷ cs) (inl h) = elim (trim_end-cons c cs) [
  | inl z ↦ rw z.0 tt
  | inr e ↦ rw e (inl (h.0, trim_end-Clean false cs h.1))
]
trim_end-Clean last (c ∷ cs) (inr h) = elim (trim_end-cons c cs) [
  | inl z ↦ rw z.0 tt
  | inr e ↦ rw e (inr (h.0, h.1, trim_end-Clean true cs h.2))
]

Clean-NoMarks : (last : Bool) (s : Text) → Clean last s → NoMarks s
Clean-NoMarks last [] h = refl
Clean-NoMarks last (c ∷ cs) (inl h) = ground (arith, Clean-NoMarks false cs)
Clean-NoMarks last (c ∷ cs) (inr h) = ground (arith, Clean-NoMarks true cs)

trim_start_id : (s : Text) → Clean true s → trim_start s ≡ s
unfolding trim_start is_whitespace
trim_start_id [] h = refl
trim_start_id (c ∷ cs) (inl h) = ground arith
trim_start_id (c ∷ cs) (inr h) = cc

-- What `normalize_item_name` returns for a clean text.
normalize-Clean : (s : Text) → Clean true s → normalize_item_name s ≡ trim_end s
unfolding normalize_item_name
normalize-Clean s h =
    rw (
      remove_minecraft_colors_id s (Clean-NoMarks true s h),
      collapse_id true s h,
      trim_start_id s h,
    )

normalized-Clean : (s : Text) → Clean true (normalize_item_name s)
unfolding normalize_item_name
normalized-Clean s =
    let t = collapse true (remove_minecraft_colors s) in
    rw (trim_start_id t (collapse-Clean true (remove_minecraft_colors s)))
      (trim_end-Clean true t (collapse-Clean true (remove_minecraft_colors s)))

normalized-trim_end : (s : Text) → trim_end (normalize_item_name s) ≡ normalize_item_name s
unfolding normalize_item_name
normalized-trim_end s = trim_end_idem (trim_start (collapse true (remove_minecraft_colors s)))

-- A normalised name has small letters and digits only, with single blanks between them and none in
-- front, and normalising it again changes nothing.
pub normalize_item_name_idem :
    (s : Text)
    → Clean true (normalize_item_name s)
      × (normalize_item_name (normalize_item_name s) ≡ normalize_item_name s)
normalize_item_name_idem s = (
  normalized-Clean s,
  normalize-Clean (normalize_item_name s) (normalized-Clean s) ∙ normalized-trim_end s,
)

-- A prefix is no longer than the text, and as long only if it is the text.
starts_with-byte_len : (a b : Text) → starts_with a b ≡ true → (byte_len a < byte_len b) ⊎ (a ≡ b)
starts_with-byte_len [] [] h = inr refl
starts_with-byte_len [] (y ∷ ys) h = inl (ground arith)
starts_with-byte_len (x ∷ xs) [] h = cc
starts_with-byte_len (x ∷ xs) (y ∷ ys) h =
    let first : x ≡ y = ground arith in
    elim (starts_with-byte_len xs ys (ground arith)) [
      | inl l ↦ inl (rw first (omega arith))
      | inr e ↦ inr (cc)
    ]

pub contains-byte_len : (a b : Text) → contains a b ≡ true → (byte_len a < byte_len b) ⊎ (a ≡ b)
unfolding contains
contains-byte_len a [] h = starts_with-byte_len a [] h
contains-byte_len a (y ∷ ys) h = elim (Bool-cases (starts_with a (y ∷ ys))) [
  | inl e ↦ starts_with-byte_len a (y ∷ ys) e
  | inr e ↦ elim (contains-byte_len a ys (ground arith)) [
    | inl l ↦ inl (ground arith)
    | inr q ↦ inl (rw q (ground arith))
  ]
]

contained_equal_len :
    (a b : Text) → byte_len a ≡ byte_len b → text_eq a b ≡ false → contains a b ≡ false
contained_equal_len a b e ne = elim (Bool-cases (contains a b)) [
  | inl h ↦ elim (contains-byte_len a b h) [
    | inl l ↦ absurd (omega arith)
    | inr q ↦ cc (rw q at ne, text_eq_refl b)
  ]
  | inr h ↦ h
]

-- Whether two names match does not depend on which comes first, and a name that is not empty
-- matches itself.
pub names_match_comm :
    (a b : Text) → (names_match a b ≡ names_match b a) × (names_match a a ≡ not (is_empty_text a))
unfolding names_match
names_match_comm a b = (
  ground (arith, text_eq_sym a b, contained_equal_len a b, contained_equal_len b a),
  ground (arith, text_eq_refl a),
)
