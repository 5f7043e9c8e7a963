-- ===== src/Common/Assoc.antt =====
-- Hash maps as association lists: `insert` writes over the entry of its key or adds one at the end.
use mathlib.Core.Path.{◌≡◌, refl}
use mathlib.Core.List.{List, [], ◌∷◌}
use mathlib.Core.Option.{Option, none, some}
use mathlib.Core.Logic.{inl, inr}
use native.Mathlib.Omega.{arith}
use escrow.Common.Tests.{if◌then◌else◌, Bool-cases}
use escrow.Common.Equality.{Eq}

module _ {ℓ} {K : Type ℓ} ⦃e : Eq K⦄ where
  pub beq_sym : (a b : K) → e.beq a b ≡ e.beq b a
  beq_sym a b = elim (Bool-cases (e.beq a b)) [
    | inl h ↦ rw (e.beq_eq a b h)
    | inr h ↦ elim (Bool-cases (e.beq b a)) [ inl k ↦ rw (e.beq_eq b a k) | inr k ↦ rw (h, k) ]
  ]

module _ {ℓ κ} {K : Type ℓ} {V : Type κ} ⦃e : Eq K⦄ where
  unfoldable pub lookup : K → List (K × V) → Option V
  lookup k [] = none
  lookup k ((j, v) ∷ m) = if e.beq j k then some v else lookup k m

  unfoldable pub insert : K → V → List (K × V) → List (K × V)
  insert k v [] = (k, v) ∷ []
  insert k v ((j, w) ∷ m) = if e.beq j k then (j, v) ∷ m else (j, w) ∷ insert k v m

  unfoldable pub remove : K → List (K × V) → List (K × V)
  remove k [] = []
  remove k ((j, v) ∷ m) = let rest = remove k m in if e.beq j k then rest else (j, v) ∷ rest

  -- No two entries have one key.
  abbrev pub DistinctKeys : List (K × V) → Type κ
  DistinctKeys [] = Unit {κ}
  DistinctKeys ((j, v) ∷ m) = (lookup j m ≡ none) × DistinctKeys m

  pub lookup-insert :
      (k j : K) (v : V) (m : List (K × V))
      → lookup j (insert k v m) ≡ (if e.beq k j then some v else lookup j m)
  unfolding lookup insert
  lookup-insert k j v [] = refl
  lookup-insert k j v ((i, w) ∷ m) = elim (Bool-cases (e.beq i k)) [
    | inl h ↦ rw (e.beq_eq i k h, e.beq_refl k) (ground arith)
    | inr h ↦ elim (Bool-cases (e.beq i j)) [
      | inl g ↦ rw (h, g) (rw (← e.beq_eq i j g, beq_sym k i, h) refl)
      | inr g ↦ rw (h, g) (lookup-insert k j v m)
    ]
  ]

  pub lookup-remove :
      (k j : K) (m : List (K × V))
      → lookup j (remove k m) ≡ (if e.beq k j then none else lookup j m)
  unfolding lookup remove
  lookup-remove k j [] = ground arith
  lookup-remove k j ((i, w) ∷ m) = elim (Bool-cases (e.beq i k)) [
    | inl h ↦ rw (e.beq_eq i k h, e.beq_refl k) (ground (arith, lookup-remove k j m))
    | inr h ↦ elim (Bool-cases (e.beq i j)) [
      | inl g ↦ rw (h, g) (rw (← e.beq_eq i j g, beq_sym k i, h) refl)
      | inr g ↦ rw (h, g) (lookup-remove k j m)
    ]
  ]

  pub insert-DistinctKeys :
      (k : K) (v : V) (m : List (K × V)) → DistinctKeys m → DistinctKeys (insert k v m)
  unfolding insert lookup
  insert-DistinctKeys k v [] d = (refl, tt)
  insert-DistinctKeys k v ((j, w) ∷ m) d = elim (Bool-cases (e.beq j k)) [
    | inl h ↦ rw h d
    | inr h ↦ rw h (rw (lookup-insert k j v m, beq_sym k j, h) d.0, insert-DistinctKeys k v m d.1)
  ]
