-- ===== src/Strings/Trimming.antt =====
-- Trimming takes nothing more from a trimmed text.
use escrow.Common.{
  ℕ, ◌≡◌, refl, ap, ◌∙◌, ◌⊎◌, inl, inr, Bool-cases, true, false, [], ◌∷◌, arith, text_keys,
  side_keys, nat_eq, Text,
}
use escrow.Strings.{is_whitespace, trim_start, trim_end, trim}

pub trim_end-cons :
    (c : ℕ) (cs : Text)
    → (trim_end (c ∷ cs) ≡ [] × (trim_end cs ≡ []) × (is_whitespace c ≡ true))
      ⊎ (trim_end (c ∷ cs) ≡ c ∷ trim_end cs)
unfolding trim_end
trim_end-cons c cs = ground arith

pub trim_end_idem : (s : Text) → trim_end (trim_end s) ≡ trim_end s
unfolding trim_end
trim_end_idem [] = refl
trim_end_idem (c ∷ cs) = ground (arith, trim_end_idem cs)

trim_start_cases :
    (s : Text)
    → (trim_start s ≡ [])
      ⊎ ((c : ℕ) × (cs : Text) × (trim_start s ≡ c ∷ cs) × (is_whitespace c ≡ false))
unfolding trim_start
trim_start_cases [] = inl refl
trim_start_cases (c ∷ cs) = elim (Bool-cases (is_whitespace c)) [
  | inl e ↦ rw e (trim_start_cases cs)
  | inr e ↦ rw e (inr (c, cs, refl, e))
]

trim_start_keeps : (c : ℕ) (cs : Text) → is_whitespace c ≡ false → trim_start (c ∷ cs) ≡ c ∷ cs
unfolding trim_start
trim_start_keeps c cs h = rw h refl

trim_start-trim_end :
    (c : ℕ) (cs : Text)
    → is_whitespace c ≡ false
    → trim_start (trim_end (c ∷ cs)) ≡ trim_end (c ∷ cs)
trim_start-trim_end c cs h = elim (trim_end-cons c cs) [
  | inl z ↦ cc (z.2, h)
  | inr e ↦ rw e (trim_start_keeps c (trim_end cs) h)
]

-- Trimming twice is trimming once.
pub trim_idem : (s : Text) → trim (trim s) ≡ trim s
unfolding trim trim_start trim_end
trim_idem s = elim (trim_start_cases s) [
  | inl e ↦ rw e refl
  | inr (c, cs, e, w) ↦ rw e (ap trim_end (trim_start-trim_end c cs w) ∙ trim_end_idem (c ∷ cs))
]
