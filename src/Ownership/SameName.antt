-- ===== src/Ownership/SameName.antt =====
-- src/auction_ownership.rs: which names `names_match` takes for one item's.
use escrow.Common.{
  ℕ, ◌≤◌, ◌≡◌, refl, sym, ap, ◌∙◌, ◌≢◌, inl, inr, true, [], ◌∷◌, ◌++◌, arith, leb, Bool-cases,
  text_keys, side_keys, nat_eq, Text, text_eq, text_eq_refl, text_eq_eq,
}
use escrow.Strings.{starts_with, contains, byte_len}
use escrow.Ownership.{names_match, min_containment_len}
use escrow.Ownership.Names.{contains-byte_len, names_match_comm}

-- One text stands within another.
pub data IsPart (short : Text) : Text → Type 0 where
  within : (before after : Text) → IsPart short (before ++ short ++ after)

starts_with-rest : (a b : Text) → starts_with a b ≡ true → (rest : Text) × (b ≡ a ++ rest)
starts_with-rest [] b h = (b, refl)
starts_with-rest (x ∷ xs) [] h = cc
starts_with-rest (x ∷ xs) (y ∷ ys) h =
    let first : x ≡ y = ground arith in
    let (rest, e) = starts_with-rest xs ys (ground arith) in (rest, cc (first, e))

starts_with-append : (a rest : Text) → starts_with a (a ++ rest) ≡ true
starts_with-append [] rest = refl
starts_with-append (x ∷ xs) rest = ground (arith, starts_with-append xs rest)

contains-IsPart : (a b : Text) → contains a b ≡ true → IsPart a b
unfolding contains
contains-IsPart a [] h = let (rest, e) = starts_with-rest a [] h in rw e (within [] rest)
contains-IsPart a (y ∷ ys) h = elim (Bool-cases (starts_with a (y ∷ ys))) [
  | inl e ↦ let (rest, q) = starts_with-rest a (y ∷ ys) e in rw q (within [] rest)
  | inr e ↦ longer y ys (contains-IsPart a ys (ground arith))
]
  where
    longer : (y : ℕ) (ys : Text) → IsPart a ys → IsPart a (y ∷ ys)
    longer y ys (within before after) = within (y ∷ before) after

contains_start : (a b : Text) → starts_with a b ≡ true → contains a b ≡ true
unfolding contains
contains_start a [] h = h
contains_start a (y ∷ ys) h = ground (arith, h)

contains-within : (a before after : Text) → contains a (before ++ a ++ after) ≡ true
unfolding contains
contains-within a [] after = contains_start a (a ++ after) (starts_with-append a after)
contains-within a (y ∷ before) after = ground (arith, contains-within a before after)

IsPart-contains : (a b : Text) → IsPart a b → contains a b ≡ true
IsPart-contains a b (within before after) = contains-within a before after

-- Two names of one item: neither is empty, and they are equal, or one of at least four bytes stands
-- within the other.
pub data SameName (a b : Text) : Type 0 where
  equal : a ≢ [] → a ≡ b → SameName a b
  in_second : min_containment_len ≤ byte_len a → IsPart a b → SameName a b
  in_first : min_containment_len ≤ byte_len b → IsPart b a → SameName a b

pub names_match-SameName : (a b : Text) → names_match a b ≡ true → SameName a b
unfolding names_match
names_match-SameName [] b h = cc
names_match-SameName (x ∷ xs) [] h = cc
names_match-SameName (x ∷ xs) (y ∷ ys) h = elim (Bool-cases (text_eq (x ∷ xs) (y ∷ ys))) [
  | inl e ↦ equal (λ n. cc n) (text_eq_eq (x ∷ xs) (y ∷ ys) e)
  | inr n ↦ elim (Bool-cases (leb (byte_len (x ∷ xs)) (byte_len (y ∷ ys)))) [
    | inl l ↦ in_second (ground arith) (contains-IsPart (x ∷ xs) (y ∷ ys) (ground arith))
    | inr l ↦ in_first (ground arith) (contains-IsPart (y ∷ ys) (x ∷ xs) (ground arith))
  ]
]

names_match-equal : (a : Text) → a ≢ [] → names_match a a ≡ true
unfolding names_match
names_match-equal [] n = absurd (n refl)
names_match-equal (x ∷ xs) n = ground (arith, text_eq_refl (x ∷ xs))

names_match-part :
    (a b : Text) → min_containment_len ≤ byte_len a → contains a b ≡ true → names_match a b ≡ true
unfolding names_match
names_match-part [] b l c = absurd (omega (arith, l))
names_match-part (x ∷ xs) [] l c = elim (contains-byte_len (x ∷ xs) [] c) [
  | inl e ↦ absurd (omega (arith, e))
  | inr e ↦ absurd (cc e)
]
names_match-part (x ∷ xs) (y ∷ ys) l c = elim (contains-byte_len (x ∷ xs) (y ∷ ys) c) [
  | inl e ↦ elim (Bool-cases (text_eq (x ∷ xs) (y ∷ ys))) [
    | inl s ↦ rw s refl
    | inr s ↦ ground (arith, s, e, l, c)
  ]
  | inr e ↦
      let s : text_eq (x ∷ xs) (y ∷ ys) ≡ true =
        ap (λ t. text_eq (x ∷ xs) t) (sym e) ∙ text_eq_refl (x ∷ xs) in
      rw s refl
]

pub SameName-names_match : (a b : Text) → SameName a b → names_match a b ≡ true
SameName-names_match a b (equal n e) = rw (← e) (names_match-equal a n)
SameName-names_match a b (in_second l p) = names_match-part a b l (IsPart-contains a b p)
SameName-names_match a b (in_first l p) =
    (names_match_comm a b).0 ∙ names_match-part b a l (IsPart-contains b a p)
