-- ===== src/Inventory.antt =====
-- src/state/manager.rs and src/inventory/manager.rs: the bot's state, and the slots of its inventory.
-- The item's SkyBlock id is a function of the item.
use escrow.Common.{
  ℕ, zero, suc, ◌+◌, ◌<◌, ◌≡◌, refl, ap, Bool, false, Option, none, some, List, [], ◌∷◌, arith,
  if◌then◌else◌, length, text_keys, side_keys, nat_eq, Text, text_eq,
}
use escrow.Types.{BotState, startup, allows_commands}

abbrev pub StateManager : Type 0
StateManager = BotState

abbrev pub initial_state : StateManager
initial_state = startup

-- The state is written only where it changes, which leaves the same.
unfoldable pub set : BotState → StateManager → StateManager
set new_state s = new_state

unfoldable pub state_allows_commands : StateManager → Bool
unfolding allows_commands
state_allows_commands s = allows_commands s

abbrev pub repeat : {A : Type 0} → ℕ → A → List A
repeat zero a = []
repeat (suc n) a = a ∷ repeat n a

abbrev pub slot_at : {A : Type 0} → List (Option A) → ℕ → Option A
slot_at [] n = none
slot_at (a ∷ as_left) zero = a
slot_at (a ∷ as_left) (suc n) = slot_at as_left n

abbrev pub replaced : {A : Type 0} → List (Option A) → ℕ → Option A → List (Option A)
replaced [] n item = []
replaced (a ∷ as_left) zero item = item ∷ as_left
replaced (a ∷ as_left) (suc n) item = a ∷ replaced as_left n item

-- The inventory of 45 slots.
unfoldable pub empty_inventory : {A : Type 0} → List (Option A)
empty_inventory = repeat 45 none

unfoldable pub inventory_slot : {A : Type 0} → List (Option A) → ℕ → Option A
inventory_slot slots n = slot_at slots n

unfoldable pub set_slot : {A : Type 0} → ℕ → Option A → List (Option A) → List (Option A)
set_slot n item slots = replaced slots n item

abbrev pub has_id : {A : Type 0} → (A → Option Text) → Text → Option A → Bool
has_id skyblock_id id none = false
has_id skyblock_id id (some item) = elim (skyblock_id item) [
  | none ↦ false
  | some own ↦ text_eq own id
]

-- The search from slot `i` on.
abbrev pub find_from : {A : Type 0} → (Option A → Bool) → ℕ → List (Option A) → Option ℕ
find_from p i [] = none
find_from p i (a ∷ as_left) = let rest = find_from p (i + 1) as_left in if p a then some i else rest

unfoldable pub find_by_skyblock_id :
    {A : Type 0} → (A → Option Text) → Text → List (Option A) → Option ℕ
find_by_skyblock_id skyblock_id id slots = find_from (has_id skyblock_id id) 0 slots

-- A slot that is set holds the item, if the inventory has the slot.
slot_at-replaced :
    {A : Type 0} (slots : List (Option A)) (n : ℕ) (item : Option A)
    → n < length slots
    → slot_at (replaced slots n item) n ≡ item
slot_at-replaced [] n item h = absurd (omega (arith, h))
slot_at-replaced (a ∷ slots) zero item h = refl
slot_at-replaced (a ∷ slots) (suc n) item h = slot_at-replaced slots n item (omega (arith, h))

length-replaced :
    {A : Type 0} (slots : List (Option A)) (n : ℕ) (item : Option A)
    → length (replaced slots n item) ≡ length slots
length-replaced [] n item = refl
length-replaced (a ∷ slots) zero item = refl
length-replaced (a ∷ slots) (suc n) item = ap suc (length-replaced slots n item)
