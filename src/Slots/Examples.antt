-- ===== src/Slots/Examples.antt =====
-- Tests of src/gui/slot_manager.rs, and the witness of its theorem.
use escrow.Common.{◌≡◌, refl, some, text_keys, side_keys, nat_eq, codes}
use escrow.Slots.{
  bin_auction_view, confirm_purchase, bazaar, manage_orders, new, from_title, get_slot,
}

plain_title : from_title (codes "Confirm Purchase") ≡ confirm_purchase
unfolding from_title
plain_title = refl

json_title :
    from_title (codes "{\"extra\":[{\"text\":\"BIN Auction View\"}],\"text\":\"\"}")
    ≡ bin_auction_view
unfolding from_title
json_title = refl

orders_title : from_title (codes "Manage Your Orders") ≡ manage_orders
unfolding from_title
orders_title = refl

bazaar_confirm : get_slot (λ t. t) new bazaar (codes "confirm") ≡ some 13
unfolding get_slot new
bazaar_confirm = refl
