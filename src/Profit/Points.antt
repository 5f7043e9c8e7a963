-- ===== src/Profit/Points.antt =====
-- src/profit.rs: what `push_point` keeps.
use escrow.Common.{
  ◌+◌, ◌*◌, ◌≤◌, ◌<◌, ◌≡◌, refl, ap, ◌∙◌, inl, inr, Option, none, some, List, [], ◌∷◌, ◌++◌, arith,
  leb, Bool-cases, length, head?, length-append, text_keys, side_keys, nat_eq,
}
use mathlib.Core.List.{Sublistᴰ}
use escrow.Profit.{ProfitPoint, max_points, every_other, last_point, decimate, push_point}

-- The last point, where there is one.
abbrev pub last? : List ProfitPoint → Option ProfitPoint
last? [] = none
last? (p ∷ ps) = some (last_point p ps)

last_point-append : (q p : ProfitPoint) (ps : List ProfitPoint) → last_point q (ps ++ p ∷ []) ≡ p
last_point-append q p [] = refl
last_point-append q p (r ∷ ps) = last_point-append r p ps

pub last?-append : (ps : List ProfitPoint) (p : ProfitPoint) → last? (ps ++ p ∷ []) ≡ some p
last?-append [] p = refl
last?-append (q ∷ ps) p = ap some (last_point-append q p ps)

length-every_other : (ps : List ProfitPoint) → 2 * length (every_other ps) ≤ length ps
length-every_other [] = omega arith
length-every_other (p ∷ []) = omega arith
length-every_other (p ∷ q ∷ ps) = omega (arith, length-every_other ps)

-- What is kept stands in its place before the last point.
every_other-Sublistᴰ :
    (p : ProfitPoint) (ps : List ProfitPoint)
    → Sublistᴰ (every_other (p ∷ ps) ++ last_point p ps ∷ []) (p ∷ ps)
every_other-Sublistᴰ p [] = Sublistᴰ.cons-cons refl Sublistᴰ.slnil
every_other-Sublistᴰ p (q ∷ []) = Sublistᴰ.cons-cons refl (Sublistᴰ.cons-cons refl Sublistᴰ.slnil)
every_other-Sublistᴰ p (q ∷ r ∷ ps) =
    Sublistᴰ.cons-cons refl (Sublistᴰ.cons (every_other-Sublistᴰ r ps))

Sublistᴰ_refl : (ps : List ProfitPoint) → Sublistᴰ ps ps
Sublistᴰ_refl [] = Sublistᴰ.slnil
Sublistᴰ_refl (p ∷ ps) = Sublistᴰ.cons-cons refl (Sublistᴰ_refl ps)

-- What thinning out a series keeps: points of it, in their order, the first and the last among
-- them, and half of them at most but for those two.
decimate-kept :
    (ps : List ProfitPoint)
    → 1 < length ps
    → Sublistᴰ (decimate ps) ps
      × (last? (decimate ps) ≡ last? ps)
      × (head? (decimate ps) ≡ head? ps)
      × (2 * length (decimate ps) ≤ length ps + 3)
decimate-kept [] h = absurd (omega arith)
decimate-kept (p ∷ []) h = absurd (omega arith)
decimate-kept (p ∷ q ∷ ps) h = (
  Sublistᴰ.cons-cons refl (every_other-Sublistᴰ q ps),
  last?-append (p ∷ every_other (q ∷ ps)) (last_point q ps),
  refl,
  omega (
    arith,
    length-every_other (q ∷ ps),
    length-append (every_other (q ∷ ps)) (last_point q ps ∷ []),
  ),
)

-- `push_point` makes up no point and changes no order: its series is a sublist of the old one with
-- the new point behind it, the first point stays the first, and the new one is the last. A series
-- of up to 9997 points has 5000 at most afterwards.
pub push_point-Sublistᴰ :
    (points : List ProfitPoint) (point : ProfitPoint)
    → length points ≤ 9997
    → Sublistᴰ (push_point points point) (points ++ point ∷ [])
      × (last? (push_point points point) ≡ some point)
      × (head? (push_point points point) ≡ head? (points ++ point ∷ []))
      × (length (push_point points point) ≤ max_points)
unfolding push_point
push_point-Sublistᴰ points point h =
    let pushed = points ++ point ∷ [] in
    let len = length-append points (point ∷ []) in
    elim (Bool-cases (leb (length pushed) max_points)) [
      | inl e ↦ rw e (Sublistᴰ_refl pushed, last?-append points point, refl, ground arith)
      | inr e ↦
          let (kept, last, head, bound) = decimate-kept pushed (ground arith) in
          rw e (kept, last ∙ last?-append points point, head, omega (arith, len))
    ]
