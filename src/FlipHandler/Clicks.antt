-- ===== src/FlipHandler/Clicks.antt =====
-- src/handlers/flip_handler.rs: how many clicks a purchase counts and logs, and how they are numbered.
use escrow.Common.{
  ℕ, zero, suc, ◌+◌, ◌%◌, ◌≤◌, ◌≡◌, refl, ◌≢◌, ◌⊎◌, inl, inr, Bool, false, ◌&&◌, Option, none, some,
  List, [], ◌∷◌, ◌++◌, arith, ◌==◌, Bool-cases, length, find, count, text_keys, side_keys, nat_eq,
  Text,
}
use escrow.Types.{F64, Instant}
use escrow.Windows.{WindowSlot, is_slot}
use escrow.FlipHandler.{FlipHandler, Click, click_slot, confirm_click}
use escrow.FlipHandler.Views.{
  Button, gold_nugget, button_of, button_name, press, handle_bin_auction_view, confirm_again,
  handle_confirm_purchase, BedSpam, bed, gone, feather, gold_block, poisonous_potato, other,
  glass_pane, skip_now, gave_up, window_closed, nugget_clicked, spamming, bed_loop, bed_clicks,
  init_bed_spam,
}

-- The clicks are numbered one after another in `i16` arithmetic, from `n` up to but without `m`.
abbrev pub IsNumbered : ℕ → List Click → ℕ → Type 0
IsNumbered n [] m = n ≡ m
IsNumbered n (c ∷ cs) m = (c.action ≡ n) × IsNumbered ((n + 1) % 65536) cs m

abbrev pub confirms : ℕ → Click → Bool
confirms window_id c =
    (c.window_id == window_id) && (elim c.slot [ none ↦ false | some i ↦ i == 11 ])

module _ (to_lowercase : Text → Text) (ge : F64 → F64 → Bool) where
  press-IsNumbered :
      (b : Button) (s : FlipHandler) (window_id next_window_id : ℕ)
      → let r = press to_lowercase ge b s window_id next_window_id in
        IsNumbered s.action_counter r.clicks r.handler.action_counter
  unfolding click_slot
  press-IsNumbered gold_nugget s window_id next_window_id =
      elim (Bool-cases (skip_now to_lowercase ge s s.current_flip)) [
        | inl e ↦ rw e (refl, (refl, refl))
        | inr e ↦ rw e (refl, refl)
      ]
  press-IsNumbered bed s window_id next_window_id = refl
  press-IsNumbered gone s window_id next_window_id = refl
  press-IsNumbered feather s window_id next_window_id = refl
  press-IsNumbered gold_block s window_id next_window_id = (refl, refl)
  press-IsNumbered poisonous_potato s window_id next_window_id = refl
  press-IsNumbered glass_pane s window_id next_window_id = refl
  press-IsNumbered (other name) s window_id next_window_id = refl

  -- Where the button is clicked, as many confirm clicks follow whether the first is ahead or not.
  count-buy :
      (s : FlipHandler) (window_id next_window_id : ℕ)
      → let r = press to_lowercase ge gold_nugget s window_id next_window_id in
        let (_, clicks) = handle_confirm_purchase r.handler next_window_id in
        count (confirms next_window_id) (r.clicks ++ clicks) ≡ 4
  unfolding click_slot handle_confirm_purchase
  count-buy s window_id next_window_id =
      elim (Bool-cases (skip_now to_lowercase ge s s.current_flip)) [
        | inl e ↦ rw e (ground arith)
        | inr e ↦ rw e (ground arith)
      ]

  -- Whether or not the confirm click is made ahead of time, a purchase makes four clicks on the
  -- confirm button of its second window.
  pub count-handle_confirm_purchase :
      (s : FlipHandler) (now : Instant) (window_id next_window_id : ℕ) (slots : List WindowSlot)
      → button_of (button_name (find (is_slot 31) slots)) ≡ gold_nugget
      → let r = handle_bin_auction_view to_lowercase ge s now window_id next_window_id slots in
        let (_, clicks) = handle_confirm_purchase r.handler next_window_id in
        count (confirms next_window_id) (r.clicks ++ clicks) ≡ 4
  unfolding handle_bin_auction_view
  count-handle_confirm_purchase s now window_id next_window_id slots h =
      rw (handle_bin_auction_view, h)
        (count-buy (record s { purchase_start_time = some now }) window_id next_window_id)

confirm_again-IsNumbered :
    (n : ℕ) (s : FlipHandler) (window_id : ℕ)
    → let (s', clicks) = confirm_again n s window_id in
      IsNumbered s.action_counter clicks s'.action_counter
unfolding click_slot
confirm_again-IsNumbered zero s window_id = refl
confirm_again-IsNumbered (suc n) s window_id = (
  refl,
  confirm_again-IsNumbered n (record s { action_counter = (s.action_counter + 1) % 65536 })
      window_id,
)

handle_confirm_purchase-IsNumbered :
    (s : FlipHandler) (window_id : ℕ)
    → let (s', clicks) = handle_confirm_purchase s window_id in
      IsNumbered s.action_counter clicks s'.action_counter
unfolding handle_confirm_purchase
handle_confirm_purchase-IsNumbered s window_id = elim (Bool-cases s.recently_skipped) [
  | inl e ↦ simp e (refl, (refl, (refl, refl)))
  | inr e ↦ simp e (refl, (refl, (refl, (refl, refl))))
]

bed_clicks-IsNumbered :
    (s : FlipHandler) (window_id : ℕ) (end : BedSpam)
    → let (s', clicks) = bed_clicks s window_id end in
      IsNumbered s.action_counter clicks s'.action_counter
unfolding click_slot
bed_clicks-IsNumbered s window_id gave_up = refl
bed_clicks-IsNumbered s window_id window_closed = refl
bed_clicks-IsNumbered s window_id nugget_clicked = (refl, refl)
bed_clicks-IsNumbered s window_id spamming = refl

bed_loop_ends :
    (most failed : ℕ) (polls : List (Option Text))
    → most ≤ failed + length polls
    → bed_loop most failed polls ≢ spamming
unfolding bed_loop
bed_loop_ends most failed [] h = ground arith
bed_loop_ends most failed (none ∷ polls) h = ground arith
bed_loop_ends most failed (some name ∷ polls) h =
    ground (arith, bed_loop_ends most (failed + 1) polls)

spam_clicks :
    (s : FlipHandler) (window_id : ℕ) (end : BedSpam)
    → ((end ≡ nugget_clicked) × (length (bed_clicks s window_id end).1 ≡ 1))
      ⊎ ((end ≢ nugget_clicked) × ((bed_clicks s window_id end).1 ≡ []))
spam_clicks s window_id gave_up = inr (λ e. cc, refl)
spam_clicks s window_id window_closed = inr (λ e. cc, refl)
spam_clicks s window_id nugget_clicked = inl (refl, refl)
spam_clicks s window_id spamming = inr (λ e. cc, refl)

-- What the handler can be asked to do in its windows.
pub data Act : Type 0 where
  view : (now : Instant) (window_id next_window_id : ℕ) (slots : List WindowSlot) → Act
  confirm : (window_id : ℕ) → Act
  confirm_once : (window_id : ℕ) → Act
  spam : (window_id : ℕ) (polls : List (Option Text)) → Act

IsNumbered-append :
    (n m k : ℕ) (cs ds : List Click)
    → IsNumbered n cs m
    → IsNumbered m ds k
    → IsNumbered n (cs ++ ds) k
IsNumbered-append n m k [] ds h g = rw h g
IsNumbered-append n m k (c ∷ cs) ds h g = (h.0, IsNumbered-append ((n + 1) % 65536) m k cs ds h.1 g)

module _ (to_lowercase : Text → Text) (ge : F64 → F64 → Bool) where
  abbrev pub act : FlipHandler → Act → FlipHandler × List Click
  act s (view now window_id next_window_id slots) =
      let r = handle_bin_auction_view to_lowercase ge s now window_id next_window_id slots in
      (r.handler, r.clicks)
  act s (confirm window_id) = handle_confirm_purchase s window_id
  act s (confirm_once window_id) = let (s', c) = confirm_click s window_id in (s', c ∷ [])
  act s (spam window_id polls) =
      let (s', clicks, _) = init_bed_spam s window_id polls in (s', clicks)

  abbrev pub act_all : FlipHandler → List Act → FlipHandler × List Click
  act_all s [] = (s, [])
  act_all s (a ∷ later) =
      let (s1, clicks) = act s a in let (s2, more) = act_all s1 later in (s2, clicks ++ more)

  act-IsNumbered :
      (s : FlipHandler) (a : Act)
      → let (s', clicks) = act s a in IsNumbered s.action_counter clicks s'.action_counter
  act-IsNumbered s (view now window_id next_window_id slots) =
      unfold handle_bin_auction_view in
      press-IsNumbered to_lowercase ge (button_of (button_name (find (is_slot 31) slots)))
        (record s { purchase_start_time = some now }) window_id next_window_id
  act-IsNumbered s (confirm window_id) = handle_confirm_purchase-IsNumbered s window_id
  act-IsNumbered s (confirm_once window_id) = unfold confirm_click in (refl, refl)
  act-IsNumbered s (spam window_id polls) =
      unfold init_bed_spam in
      bed_clicks-IsNumbered s window_id
        (bed_loop s.window_config.bed_spam_max_failed_clicks 0 polls)

  -- The clicks of any run of the handler's calls, in whatever windows, are numbered one after
  -- another from its counter on, in `i16` arithmetic, and the counter stands at the next number.
  pub act_all-IsNumbered :
      (s : FlipHandler) (acts : List Act)
      → let (s', clicks) = act_all s acts in IsNumbered s.action_counter clicks s'.action_counter
  act_all-IsNumbered s [] = refl
  act_all-IsNumbered s (a ∷ acts) =
      let s1 = (act s a).0 in
      IsNumbered-append s.action_counter s1.action_counter (act_all s1 acts).0.action_counter
        (act s a).1 (act_all s1 acts).1 (act-IsNumbered s a) (act_all-IsNumbered s1 acts)

-- Bed spam is over after as many polls as failed clicks are allowed; it clicks once if a nugget
-- shows, and never otherwise.
pub init_bed_spam-ends :
    (s : FlipHandler) (window_id : ℕ) (polls : List (Option Text))
    → s.window_config.bed_spam_max_failed_clicks ≤ length polls
    → let (_, clicks, end) = init_bed_spam s window_id polls in
      (end ≢ spamming)
      × (((end ≡ nugget_clicked) × (length clicks ≡ 1)) ⊎ ((end ≢ nugget_clicked) × (clicks ≡ [])))
unfolding init_bed_spam
init_bed_spam-ends s window_id polls h =
    let most = s.window_config.bed_spam_max_failed_clicks in
    (bed_loop_ends most 0 polls (omega arith), spam_clicks s window_id (bed_loop most 0 polls))
