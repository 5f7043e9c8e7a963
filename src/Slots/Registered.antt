-- ===== src/Slots/Registered.antt =====
-- src/gui/slot_manager.rs: what a registered slot changes.
use escrow.Common.{
  ℕ, ◌≡◌, refl, inl, inr, some, [], if◌then◌else◌, or_else, Bool-cases, lookup, insert,
  lookup-insert, text_keys, side_keys, nat_eq, Text, text_eq,
}
use escrow.Slots.{WindowKind, SlotManager, window_key, get_slot, register_slot}

module _ (debug : Text → Text) where
  -- A registered slot is found under its window and name. Every other slot of a window of that kind
  -- is found only if it was registered too, so the standard slots of the window are gone; and the
  -- other windows keep all their slots.
  pub get_slot-register_slot :
      (s : SlotManager) (kind other : WindowKind) (name sought : Text) (physical : ℕ)
      → get_slot debug (register_slot debug s kind name physical) other sought ≡ (
          if text_eq (window_key debug kind) (window_key debug other)
          then (if text_eq name sought
              then some physical
              else lookup sought (or_else (lookup (window_key debug kind) s.mappings) []))
          else get_slot debug s other sought)
  unfolding get_slot register_slot
  get_slot-register_slot s kind other name sought physical =
      let k = window_key debug kind in
      let registered = or_else (lookup k s.mappings) [] in
      let window_map = insert name physical registered in
      elim (Bool-cases (text_eq k (window_key debug other))) [
        | inl e ↦
            rw (get_slot, lookup-insert k (window_key debug other) window_map s.mappings, e)
              (lookup-insert name sought physical registered)
        | inr e ↦
            rw (get_slot, lookup-insert k (window_key debug other) window_map s.mappings, e) refl
      ]
