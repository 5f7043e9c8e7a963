-- ===== src/BazaarHandler/Distance/Scripts.antt =====
-- src/handlers/bazaar_flip_handler.rs: the edit distance is the least cost of an edit script.
use escrow.Common.{
  ℕ, suc, ◌+◌, ◌≤◌, ◌≡◌, refl, sym, ap, ◌∙◌, inl, inr, true, some, List, [], ◌∷◌, ◌++◌, reverse,
  arith, leb, ◌==◌, Bool-cases, length, length-append, text_keys, side_keys, nat_eq, Text,
}
use mathlib.Core.List.{reverse-reverse, reverse_aux, reverse_aux-eq, append-nil}
use escrow.Strings.{byte_len}
use escrow.BazaarHandler.Distance.{
  min, cost, fill_row, fill_rows, count_up, last_cell, levenshtein_distance,
}

add_one : (n : ℕ) → n + 1 ≡ suc n
add_one n = omega arith

-- The scripts that turn one text into another, by their cost.
pub data Script : Text → Text → ℕ → Type 0 where
  done : Script [] [] 0
  keep : {a b : Text} {n : ℕ} (x : ℕ) → Script a b n → Script (x ∷ a) (x ∷ b) n
  swap : {a b : Text} {n : ℕ} (x y : ℕ) → Script a b n → Script (x ∷ a) (y ∷ b) (suc n)
  delete : {a b : Text} {n : ℕ} (x : ℕ) → Script a b n → Script (x ∷ a) b (suc n)
  add : {a b : Text} {n : ℕ} (y : ℕ) → Script a b n → Script a (y ∷ b) (suc n)

-- The recursion behind the matrix.
abbrev pub dist : Text → Text → ℕ
dist [] b = length b
dist (x ∷ a) [] = suc (length a)
dist (x ∷ a) (y ∷ b) = min (min (dist (x ∷ a) b + 1) (dist a (y ∷ b) + 1)) (dist a b + cost y x)

Script-adds : (b : Text) → Script [] b (length b)
Script-adds [] = done
Script-adds (y ∷ b) = add y (Script-adds b)

Script-deletes : (a : Text) → Script a [] (length a)
Script-deletes [] = done
Script-deletes (x ∷ a) = delete x (Script-deletes a)

Script-min : (a b : Text) (m n : ℕ) → Script a b m → Script a b n → Script a b (min m n)
Script-min a b m n s t = elim (Bool-cases (leb m n)) [ inl e ↦ rw e s | inr e ↦ rw e t ]

Script-cost : (a b : Text) (x y n : ℕ) → Script a b n → Script (x ∷ a) (y ∷ b) (n + cost y x)
Script-cost a b x y n s = elim (Bool-cases (y == x)) [
  | inl e ↦
      let same : y ≡ x = ground arith in
      let none_added : n + cost y x ≡ n = ground arith in rw (none_added, same) (keep x s)
  | inr e ↦ let one_added : n + cost y x ≡ suc n = ground arith in rw one_added (swap x y s)
]

Script-dist : (a b : Text) → Script a b (dist a b)
Script-dist [] b = Script-adds b
Script-dist (x ∷ a) [] = Script-deletes (x ∷ a)
Script-dist (x ∷ a) (y ∷ b) =
    Script-min (x ∷ a) (y ∷ b) (min (dist (x ∷ a) b + 1) (dist a (y ∷ b) + 1)) (dist a b + cost y x)
      (Script-min (x ∷ a) (y ∷ b) (dist (x ∷ a) b + 1) (dist a (y ∷ b) + 1)
        (rw (add_one (dist (x ∷ a) b)) (add y (Script-dist (x ∷ a) b)))
        (rw (add_one (dist a (y ∷ b))) (delete x (Script-dist a (y ∷ b)))))
      (Script-cost a b x y (dist a b) (Script-dist a b))

dist-nil : (a : Text) → dist a [] ≡ length a
dist-nil [] = refl
dist-nil (x ∷ a) = refl

dist_delete : (x : ℕ) (a b : Text) → dist (x ∷ a) b ≤ dist a b + 1
dist_delete x a [] = omega (arith, dist-nil a)
dist_delete x a (y ∷ b) = ground arith

dist_add : (y : ℕ) (a b : Text) → dist a (y ∷ b) ≤ dist a b + 1
dist_add y [] b = omega arith
dist_add y (x ∷ a) b = ground arith

dist-le : {a b : Text} {n : ℕ} → Script a b n → dist a b ≤ n
dist-le done = omega arith
dist-le (keep x s) = let shorter = dist-le s in ground arith
dist-le (swap x y s) = let shorter = dist-le s in ground arith
dist-le (delete {a = a} {b = b} x s) = omega (arith, dist-le s, dist_delete x a b)
dist-le (add {a = a} {b = b} y s) = omega (arith, dist-le s, dist_add y a b)

-- Scripts side by side, and backwards.
zero_left : (n : ℕ) → 0 + n ≡ n
zero_left n = omega arith

right_zero : (n : ℕ) → n + 0 ≡ n
right_zero n = omega arith

suc_left : (k n : ℕ) → suc k + n ≡ suc (k + n)
suc_left k n = omega arith

Script-append :
    {a b c d : Text} {m n : ℕ} → Script a b m → Script c d n → Script (a ++ c) (b ++ d) (m + n)
Script-append {n = n} done t = rw (zero_left n) t
Script-append (keep x s) t = keep x (Script-append s t)
Script-append {n = n} (swap {n = k} x y s) t = rw (suc_left k n) (swap x y (Script-append s t))
Script-append {n = n} (delete {n = k} x s) t = rw (suc_left k n) (delete x (Script-append s t))
Script-append {n = n} (add {n = k} y s) t = rw (suc_left k n) (add y (Script-append s t))

reverse-cons : (x : ℕ) (a : Text) → reverse (x ∷ a) ≡ reverse a ++ (x ∷ [])
reverse-cons x a = reverse_aux-eq a (x ∷ [])

Script-cast : {a b c d : Text} {m n : ℕ} → a ≡ c → b ≡ d → m ≡ n → Script a b m → Script c d n
Script-cast p q e s = rw (sym p, sym q, sym e) s

Script-keep_last :
    (x : ℕ) {a b : Text} {n : ℕ} → Script a b n → Script (a ++ (x ∷ [])) (b ++ (x ∷ [])) n
Script-keep_last x {n = n} s = rw (sym (right_zero n)) (Script-append s (keep x done))

Script-swap_last :
    (x y : ℕ) {a b : Text} {n : ℕ} → Script a b n → Script (a ++ (x ∷ [])) (b ++ (y ∷ [])) (suc n)
Script-swap_last x y {n = n} s = rw (sym (add_one n)) (Script-append s (swap x y done))

Script-delete_last : (x : ℕ) {a b : Text} {n : ℕ} → Script a b n → Script (a ++ (x ∷ [])) b (suc n)
Script-delete_last x {a = a} {b = b} {n = n} s =
    Script-cast refl (append-nil b) (add_one n) (Script-append s (delete x done))

Script-add_last : (y : ℕ) {a b : Text} {n : ℕ} → Script a b n → Script a (b ++ (y ∷ [])) (suc n)
Script-add_last y {a = a} {n = n} s =
    Script-cast (append-nil a) refl (add_one n) (Script-append s (add y done))

Script-reverse : {a b : Text} {n : ℕ} → Script a b n → Script (reverse a) (reverse b) n
Script-reverse done = done
Script-reverse (keep {a = a} {b = b} x s) =
    rw (reverse-cons x a, reverse-cons x b) (Script-keep_last x (Script-reverse s))
Script-reverse (swap {a = a} {b = b} x y s) =
    rw (reverse-cons x a, reverse-cons y b) (Script-swap_last x y (Script-reverse s))
Script-reverse (delete {a = a} {b = b} x s) =
    rw (reverse-cons x a) (Script-delete_last x (Script-reverse s))
Script-reverse (add {a = a} {b = b} y s) =
    rw (reverse-cons y b) (Script-add_last y (Script-reverse s))

-- The distance from the ends of the texts, which is the recursion on the texts backwards.
abbrev pub distance : Text → Text → ℕ
distance a b = dist (reverse a) (reverse b)

distance-le : {a b : Text} {n : ℕ} → Script a b n → distance a b ≤ n
distance-le s = dist-le (Script-reverse s)

Script-distance : (a b : Text) → Script a b (distance a b)
Script-distance a b =
    Script-cast (reverse-reverse a) (reverse-reverse b) refl
      (Script-reverse (Script-dist (reverse a) (reverse b)))

-- Row `rb` of the matrix from the column after `racc` on.
row_spec : Text → Text → Text → List ℕ
row_spec racc [] rb = dist racc rb ∷ []
row_spec racc (a ∷ rest) rb = dist racc rb ∷ row_spec (a ∷ racc) rest rb

tail_spec : Text → Text → Text → List ℕ
tail_spec racc [] rb = []
tail_spec racc (a ∷ rest) rb = row_spec (a ∷ racc) rest rb

row_spec-tail_spec :
    (racc rest rb : Text) → row_spec racc rest rb ≡ dist racc rb ∷ tail_spec racc rest rb
unfolding row_spec tail_spec
row_spec-tail_spec racc [] rb = refl
row_spec-tail_spec racc (a ∷ rest) rb = refl

count_up-row_spec :
    (racc rest : Text) → count_up (length rest) (length racc) ≡ row_spec racc rest []
unfolding row_spec tail_spec
count_up-row_spec racc [] = rw (dist-nil racc) refl
count_up-row_spec racc (a ∷ rest) =
    rw (dist-nil racc, add_one (length racc), count_up-row_spec (a ∷ racc) rest) refl

last_cell-row_spec :
    (racc rest rb : Text) → last_cell (row_spec racc rest rb) ≡ dist (reverse_aux rest racc) rb
unfolding row_spec
last_cell-row_spec racc [] rb = refl
last_cell-row_spec racc (a ∷ []) rb = refl
last_cell-row_spec racc (a ∷ c ∷ rest) rb = last_cell-row_spec (a ∷ racc) (c ∷ rest) rb

fill_row-tail_spec :
    (racc rest rb : Text) (y : ℕ)
    → fill_row (length rest) rest y (dist racc (y ∷ rb)) (row_spec racc rest rb)
      ≡ some (tail_spec racc rest (y ∷ rb))
unfolding row_spec tail_spec
fill_row-tail_spec racc [] rb y = refl
fill_row-tail_spec racc (a ∷ []) rb y = refl
fill_row-tail_spec racc (a ∷ c ∷ rest) rb y =
    rw (fill_row-tail_spec (a ∷ racc) (c ∷ rest) rb y) refl

fill_rows-next :
    (m b i n : ℕ) (bs a : Text) (above row : List ℕ)
    → fill_row n a b i above ≡ some row
    → fill_rows (suc m) (b ∷ bs) i n a above ≡ fill_rows m bs (i + 1) n a (i ∷ row)
fill_rows-next m b i n bs a above row e = rw (fill_rows, e) refl

fill_rows-row_spec :
    (a bs rb : Text)
    → fill_rows (length bs) bs (suc (length rb)) (length a) a (row_spec [] a rb)
      ≡ some (row_spec [] a (reverse_aux bs rb))
fill_rows-row_spec a [] rb = refl
fill_rows-row_spec a (y ∷ bs) rb =
    fill_rows-next (length bs) y (suc (length rb)) (length a) bs a (row_spec [] a rb)
      (tail_spec [] a (y ∷ rb)) (fill_row-tail_spec [] a rb y)
    ∙ ap (λ row. fill_rows (length bs) bs (suc (length rb) + 1) (length a) a row)
        (sym (row_spec-tail_spec [] a (y ∷ rb)))
    ∙ ap (λ i. fill_rows (length bs) bs i (length a) a (row_spec [] a (y ∷ rb)))
        (add_one (suc (length rb)))
    ∙ fill_rows-row_spec a bs (y ∷ rb)

matrix :
    (a b : Text)
    → fill_rows (length b) b 1 (length a) a (count_up (length a) 0)
      ≡ some (row_spec [] a (reverse b))
matrix a b =
    ap (λ row. fill_rows (length b) b 1 (length a) a row) (count_up-row_spec [] a)
    ∙ fill_rows-row_spec a b []

length-backwards : (a : Text) → length (reverse a) ≡ length a
length-backwards [] = refl
length-backwards (x ∷ a) =
    ap (λ t. length t) (reverse-cons x a)
    ∙ length-append (reverse a) (x ∷ [])
    ∙ ap (λ n. n + 1) (length-backwards a)
    ∙ add_one (length a)

is_zero : (a : Text) → (length a == 0) ≡ true → a ≡ []
is_zero [] e = refl
is_zero (x ∷ a) e = ground (arith, e)

distance-ascii :
    (a b : Text)
    → byte_len a ≡ length a
    → byte_len b ≡ length b
    → levenshtein_distance a b ≡ some (distance a b)
unfolding levenshtein_distance
distance-ascii a b p q =
    rw (p, q)
      (elim (Bool-cases (length a == 0)) [
        | inl e ↦ rw (e, is_zero a e) (ap some (sym (length-backwards b)))
        | inr e ↦ elim (Bool-cases (length b == 0)) [
          | inl h ↦
              rw (e, h, is_zero b h) (ap some (sym (dist-nil (reverse a) ∙ length-backwards a)))
          | inr h ↦ rw (e, h, matrix a b) (ap some (last_cell-row_spec [] a (reverse b)))
        ]
      ])

-- The edit distance of two texts of ASCII characters is the cost of an edit script from one to the
-- other, and no script costs less.
pub levenshtein_distance-distance :
    (a b : Text) {n : ℕ}
    → byte_len a ≡ length a
    → byte_len b ≡ length b
    → Script a b n
    → (levenshtein_distance a b ≡ some (distance a b))
      × Script a b (distance a b)
      × (distance a b ≤ n)
levenshtein_distance-distance a b p q s =
    (distance-ascii a b p q, Script-distance a b, distance-le s)
