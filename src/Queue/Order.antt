-- ===== src/Queue/Order.antt =====
-- src/state/command_queue.rs: the queue stays sorted by priority, and its four priorities are four
-- first-in-first-out lanes.
use escrow.Common.{
  ℕ, zero, suc, ◌≤◌, ◌≡◌, refl, inl, inr, Bool, List, [], ◌∷◌, arith, ltb, if◌then◌else◌,
  Bool-cases, retain, length, keep_first, any, count, ◌||◌,
}
use escrow.Types.{QueuedCommand, discriminant}
use escrow.Queue.{insert}

-- The priority of a command as a number, 1 first.
abbrev pub level : QueuedCommand → ℕ
level c = discriminant c.priority

-- No command of the list goes before priority `n`.
abbrev pub NoneBefore : ℕ → List QueuedCommand → Type 0
NoneBefore n [] = Unit {0}
NoneBefore n (c ∷ cs) = (n ≤ level c) × NoneBefore n cs

abbrev pub IsSorted : List QueuedCommand → Type 0
IsSorted [] = Unit {0}
IsSorted (c ∷ cs) = NoneBefore (level c) cs × IsSorted cs

pub NoneBefore-mono : (m n : ℕ) (q : List QueuedCommand) → m ≤ n → NoneBefore n q → NoneBefore m q
NoneBefore-mono m n [] h b = tt
NoneBefore-mono m n (c ∷ cs) h b = (omega arith, NoneBefore-mono m n cs h b.1)

NoneBefore-retain :
    (p : QueuedCommand → Bool) (n : ℕ) (q : List QueuedCommand)
    → NoneBefore n q
    → NoneBefore n (retain p q)
NoneBefore-retain p n [] b = tt
NoneBefore-retain p n (c ∷ cs) b = ground (arith, NoneBefore-retain p n cs b.1)

pub retain-IsSorted :
    (p : QueuedCommand → Bool) (q : List QueuedCommand) → IsSorted q → IsSorted (retain p q)
retain-IsSorted p [] s = tt
retain-IsSorted p (c ∷ cs) s =
    ground (arith, retain-IsSorted p cs s.1, NoneBefore-retain p (level c) cs s.0)

-- `insert` by one recursion.
unfoldable pub insert_before : QueuedCommand → List QueuedCommand → List QueuedCommand
insert_before c [] = c ∷ []
insert_before c (x ∷ xs) = if ltb (level c) (level x) then c ∷ x ∷ xs else x ∷ insert_before c xs

pub insert-insert_before :
    (c : QueuedCommand) (q : List QueuedCommand) → insert c q ≡ insert_before c q
unfolding insert insert_before
insert-insert_before c [] = refl
insert-insert_before c (x ∷ xs) = ground (arith, insert-insert_before c xs)

NoneBefore-insert_before :
    (n : ℕ) (c : QueuedCommand) (q : List QueuedCommand)
    → n ≤ level c
    → NoneBefore n q
    → NoneBefore n (insert_before c q)
unfolding insert_before
NoneBefore-insert_before n c [] h b = (h, tt)
NoneBefore-insert_before n c (x ∷ xs) h b = ground (arith, NoneBefore-insert_before n c xs h b.1)

insert_before-IsSorted :
    (c : QueuedCommand) (q : List QueuedCommand) → IsSorted q → IsSorted (insert_before c q)
unfolding insert_before
insert_before-IsSorted c [] s = (tt, tt)
insert_before-IsSorted c (x ∷ xs) s = elim (Bool-cases (ltb (level c) (level x))) [
  | inl e ↦ rw e ((ground arith, NoneBefore-mono (level c) (level x) xs (ground arith) s.0), s)
  | inr e ↦
      rw e (
        NoneBefore-insert_before (level x) c xs (ground arith) s.0,
        insert_before-IsSorted c xs s.1,
      )
]

pub insert-IsSorted :
    (c : QueuedCommand) (q : List QueuedCommand) → IsSorted q → IsSorted (insert c q)
insert-IsSorted c q s = rw (insert-insert_before c q) (insert_before-IsSorted c q s)

NoneBefore-keep_first :
    (p : QueuedCommand → Bool) (m n : ℕ) (q : List QueuedCommand)
    → NoneBefore n q
    → NoneBefore n (keep_first p m q)
unfolding keep_first
NoneBefore-keep_first p m n [] b = tt
NoneBefore-keep_first p zero n (c ∷ cs) b = ground (arith, NoneBefore-keep_first p zero n cs b.1)
NoneBefore-keep_first p (suc m) n (c ∷ cs) b =
    (b.0, NoneBefore-keep_first p (if p c then m else suc m) n cs b.1)

pub keep_first-IsSorted :
    (p : QueuedCommand → Bool) (m : ℕ) (q : List QueuedCommand)
    → IsSorted q
    → IsSorted (keep_first p m q)
unfolding keep_first
keep_first-IsSorted p m [] s = tt
keep_first-IsSorted p zero (c ∷ cs) s =
    ground (arith, keep_first-IsSorted p zero cs s.1, NoneBefore-keep_first p zero (level c) cs s.0)
keep_first-IsSorted p (suc m) (c ∷ cs) s =
    let m' : ℕ = if p c then m else suc m in
    (NoneBefore-keep_first p m' (level c) cs s.0, keep_first-IsSorted p m' cs s.1)

insert_before_front :
    (c : QueuedCommand) (q : List QueuedCommand)
    → NoneBefore (suc (level c)) q
    → insert_before c q ≡ c ∷ q
unfolding insert_before
insert_before_front c [] b = refl
insert_before_front c (x ∷ xs) b = ground arith

retain-insert_before :
    (p : QueuedCommand → Bool) (c : QueuedCommand) (q : List QueuedCommand)
    → IsSorted q
    → retain p (insert_before c q) ≡ (if p c then insert_before c (retain p q) else retain p q)
unfolding insert_before
retain-insert_before p c [] s = ground arith
retain-insert_before p c (x ∷ xs) s = elim (Bool-cases (ltb (level c) (level x))) [
  | inl e ↦ rw e (
      ground (
        arith,
        insert_before_front c (retain p (x ∷ xs)) (
            NoneBefore-retain p (suc (level c)) (x ∷ xs)
              (ground arith, NoneBefore-mono (suc (level c)) (level x) xs (ground arith) s.0)),
      ))
  | inr e ↦ rw e (ground (arith, retain-insert_before p c xs s.1))
]

-- Leaving commands out and inserting one can change places.
pub retain-insert :
    (p : QueuedCommand → Bool) (c : QueuedCommand) (q : List QueuedCommand)
    → IsSorted q
    → retain p (insert c q) ≡ (if p c then insert c (retain p q) else retain p q)
retain-insert p c q s =
    rw (insert-insert_before c q, insert-insert_before c (retain p q))
      (retain-insert_before p c q s)

any-insert_before :
    (r : QueuedCommand → Bool) (c : QueuedCommand) (q : List QueuedCommand)
    → any r (insert_before c q) ≡ (r c || any r q)
unfolding insert_before
any-insert_before r c [] = refl
any-insert_before r c (x ∷ xs) = ground (arith, any-insert_before r c xs)

count-insert_before :
    (r : QueuedCommand → Bool) (c : QueuedCommand) (q : List QueuedCommand)
    → count r (insert_before c q) ≡ count r (c ∷ q)
unfolding insert_before
count-insert_before r c [] = refl
count-insert_before r c (x ∷ xs) = ground (arith, count-insert_before r c xs)

length-insert_before :
    (c : QueuedCommand) (q : List QueuedCommand) → length (insert_before c q) ≡ suc (length q)
unfolding insert_before
length-insert_before c [] = refl
length-insert_before c (x ∷ xs) = ground (arith, length-insert_before c xs)

-- A test passes in the queue with one command more if it does for that command or did before.
pub any-insert :
    (r : QueuedCommand → Bool) (c : QueuedCommand) (q : List QueuedCommand)
    → any r (insert c q) ≡ (r c || any r q)
any-insert r c q = rw (insert-insert_before c q) (any-insert_before r c q)

pub count-insert :
    (r : QueuedCommand → Bool) (c : QueuedCommand) (q : List QueuedCommand)
    → count r (insert c q) ≡ count r (c ∷ q)
count-insert r c q = rw (insert-insert_before c q) (count-insert_before r c q)

pub length-insert :
    (c : QueuedCommand) (q : List QueuedCommand) → length (insert c q) ≡ suc (length q)
length-insert c q = rw (insert-insert_before c q) (length-insert_before c q)
