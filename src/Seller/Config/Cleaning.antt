-- ===== src/Seller/Config/Cleaning.antt =====
-- src/seller/config.rs: what cleaning leaves, and what the mask of a token shows.
use escrow.Common.{
  ℕ, zero, suc, ◌+◌, ◌≤◌, ◌<◌, ◌≡◌, refl, ap, ◌∙◌, inl, inr, true, false, some, List, [], ◌∷◌, ◌++◌,
  map, reverse, arith, ltb, leb, Bool-cases, length, retain, text_keys, side_keys, nat_eq, Text,
}
use mathlib.Core.List.{reverse_aux, reverse-append, reverse-reverse}
use escrow.Strings.{trim, byte_len}
use escrow.Strings.Trimming.{trim_idem}
use escrow.Ownership.{is_empty_text}
use escrow.Seller.Config.{
  min_cooldown_seconds, max_selected_items, SellerChannel, SellerConfig, take, is_named,
  clean_channel, sanitized, last_chars, ellipsis, mask_token, ConfigJson, load_from, save_to,
}

module _ {ℓ} {A : Type ℓ} where
  length-take : (n : ℕ) (xs : List A) → length (take n xs) ≤ n
  length-take zero xs = omega arith
  length-take (suc n) [] = omega arith
  length-take (suc n) (x ∷ xs) = omega (arith, length-take n xs)

  take-append : (n : ℕ) (xs ys : List A) → length xs ≡ n → take n (xs ++ ys) ≡ xs
  take-append zero [] ys h = refl
  take-append zero (x ∷ xs) ys h = absurd (omega arith)
  take-append (suc n) [] ys h = absurd (omega arith)
  take-append (suc n) (x ∷ xs) ys h = ap (◌∷◌ x) (take-append n xs ys (omega arith))

  length-reverse_aux : (xs ys : List A) → length (reverse_aux xs ys) ≡ length xs + length ys
  length-reverse_aux [] ys = omega arith
  length-reverse_aux (x ∷ xs) ys = omega (arith, length-reverse_aux xs (x ∷ ys))

-- What the panel relies on: a trimmed token, channels with trimmed names and no short cooldown, and
-- as many items as one message can hold.
abbrev pub IsCleanChannel : SellerChannel → Type 0
IsCleanChannel c =
    (trim c.channel_id ≡ c.channel_id)
    × (is_empty_text c.channel_id ≡ false)
    × (min_cooldown_seconds ≤ c.cooldown_seconds)

abbrev pub AllClean : List SellerChannel → Type 0
AllClean [] = Unit {0}
AllClean (c ∷ cs) = IsCleanChannel c × AllClean cs

pub record IsClean (s : SellerConfig) : Type 0 where
  pub token_trimmed : trim s.token ≡ s.token
  pub items_bounded : length s.selected_items ≤ max_selected_items
  pub channels_clean : AllClean s.channels

clean_channels : (cs : List SellerChannel) → AllClean (map clean_channel (retain is_named cs))
clean_channels [] = tt
clean_channels (c ∷ cs) = elim (Bool-cases (is_empty_text (trim c.channel_id))) [
  | inl e ↦ rw e (clean_channels cs)
  | inr e ↦ rw e ((trim_idem c.channel_id, e, ground arith), clean_channels cs)
]

clean_channel_id : (c : SellerChannel) → IsCleanChannel c → clean_channel c ≡ c
clean_channel_id c h =
    let long : ltb c.cooldown_seconds min_cooldown_seconds ≡ false = ground (arith, h.2) in
    rw (h.0, long) refl

clean_channels_id :
    (cs : List SellerChannel) → AllClean cs → map clean_channel (retain is_named cs) ≡ cs
clean_channels_id [] h = refl
clean_channels_id (c ∷ cs) h =
    let named : is_named c ≡ true = rw (h.0.0, h.0.1) refl in
    rw (named, clean_channel_id c h.0, clean_channels_id cs h.1) refl

sanitized-IsClean : (s : SellerConfig) → IsClean (sanitized s)
unfolding sanitized
sanitized-IsClean s = record {
  token_trimmed = trim_idem s.token;
  items_bounded = ground (arith, length-take max_selected_items s.selected_items);
  channels_clean = clean_channels s.channels;
}

sanitized_id : (s : SellerConfig) → IsClean s → sanitized s ≡ s
unfolding sanitized
sanitized_id s h =
    let few : ltb max_selected_items (length s.selected_items) ≡ false =
      ground (arith, h.items_bounded) in
    rw (h.token_trimmed, few, clean_channels_id s.channels h.channels_clean) refl

-- Cleaned settings are clean, cleaning them again changes nothing, and what is saved is loaded again
-- in its clean form, where the JSON library reads back what it wrote for it.
pub load_from-save_to :
    (json : ConfigJson) (s : SellerConfig)
    → json.from_str (json.to_string_pretty (sanitized s)) ≡ some (sanitized s)
    → IsClean (sanitized s)
      × (sanitized (sanitized s) ≡ sanitized s)
      × (load_from json (save_to json s) ≡ some (sanitized s))
unfolding load_from save_to
load_from-save_to json s h =
    let clean = sanitized-IsClean s in
    let again = sanitized_id (sanitized s) clean in (clean, again, rw (h, again) refl)

last_chars-append : (n : ℕ) (xs ys : Text) → length ys ≡ n → last_chars n (xs ++ ys) ≡ ys
last_chars-append n xs ys h =
    rw
      (
        reverse-append xs ys,
        take-append n (reverse ys) (reverse xs) (omega (arith, h, length-reverse_aux ys [])),
      )
      (reverse-reverse ys)

append_assoc : (xs ys zs : Text) → xs ++ (ys ++ zs) ≡ (xs ++ ys) ++ zs
append_assoc [] ys zs = refl
append_assoc (x ∷ xs) ys zs = ap (◌∷◌ x) (append_assoc xs ys zs)

last_chars-end : (n : ℕ) (xs ys zs : Text) → length zs ≡ n → last_chars n (xs ++ (ys ++ zs)) ≡ zs
last_chars-end n xs ys zs h =
    ap (last_chars n) (append_assoc xs ys zs) ∙ last_chars-append n (xs ++ ys) zs h

filled : (t : Text) → 0 < byte_len t → is_empty_text t ≡ false
filled [] h = absurd (omega arith)
filled (c ∷ cs) h = refl

-- The mask of a token of more than ten bytes is its first four and its last four characters with an
-- ellipsis between them. What stands between them in the token makes no difference, not even if
-- nothing does: then the mask shows the whole token.
pub mask_token-append :
    (front middle back : Text)
    → length front ≡ 4
    → length back ≡ 4
    → trim (front ++ (middle ++ back)) ≡ front ++ (middle ++ back)
    → 10 < byte_len (front ++ (middle ++ back))
    → mask_token (front ++ (middle ++ back)) ≡ front ++ ellipsis ∷ back
unfolding mask_token
mask_token-append front middle back h g t b =
    let token = front ++ (middle ++ back) in
    let long : leb (byte_len token) 10 ≡ false = ground (arith, b) in
    rw
      (
        t,
        filled token (omega (arith, b)),
        long,
        take-append 4 front (middle ++ back) h,
        last_chars-end 4 front middle back g,
      )
      refl
