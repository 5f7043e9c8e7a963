-- ===== src/Config.antt =====
-- src/config/types.rs: the settings that the bot fills in, heals and reads, and the rules for relisting.
-- The record has the fields that these rules read. The draws of the random generator are a function.
pub mod Healing
mod Examples
use escrow.Common.{
  ℕ, zero, suc, ◌+◌, ◌-◌, ◌*◌, ◌/◌, ◌%◌, ◌^◌, ◌≤◌, ◌<◌, ◌≡◌, refl, sym, ap, ◌∙◌, ◌≢◌, ◌↔◌, ◌⊎◌, inl,
  inr, Bool, true, false, not, ◌&&◌, ◌||◌, Option, none, some, List, [], ◌∷◌, ◌++◌, map, reverse,
  arith, ltb, leb, ◌==◌, if◌then◌else◌, bool_eq, is_some, or_else, Bool-cases, Option-cases,
  ==_refl, ==_eq, length, head?, drop, length-append, length-map, length-drop, retain, any, find,
  count, remove_last, count-append, retain-append, length-retain-le, length-retain, count_split,
  find-some, find-any, find-any_of, any-retain, any-append, count-any, Eq, lookup, insert, remove,
  lookup-insert, lookup-remove, DistinctKeys, text_keys, side_keys, nat_eq, Text, codes, text_eq,
  text_eq_refl, text_eq_eq, text_eq_sym, ℤ, pos, negsuc, u64_mod, wrapping_add, wrapping_sub, IsI64,
  int_eq, int_eq_iff, is_positive, wrapping_sub-wrapping_add, wrapping_sub_self, wrapping_sub_shift,
}
use escrow.Strings.{trim, is_ascii_alphanumeric, is_ascii_lower}
use escrow.Restart.{as_i64}
use escrow.Panel.{leb_int, strip_prefix, split}
use escrow.Websocket.{host_of, is_cofl_url}

pub record Config : Type 0 where
  pub web_gui_password : Option Text
  pub websocket_url : Text
  pub webhook_url : Option Text
  pub bazaar_webhook_url : Option Text
  pub finder_flip_webhook_url : Option Text
  pub discord_id : Option Text
  pub backend_allowed_ids : Option Text
  pub ingame_name : Option Text
  pub proxy_credentials : Option Text
  pub do_not_relist_finders : List Text
  pub do_not_relist_over_profit : ℕ

abbrev pub default_websocket_url : Text
default_websocket_url = codes "wss://sky.coflnet.com/modsocket"

-- The text, if there is one that is not empty.
abbrev pub filled : Option Text → Option Text
filled none = none
filled (some []) = none
filled (some (c ∷ cs)) = some (c ∷ cs)

-- The alphabet of generated passwords, and a password from twenty draws.
abbrev pub alphabet : Text
alphabet = codes "abcdefghijkmnopqrstuvwxyzABCDEFGHJKLMNPQRSTUVWXYZ23456789"

abbrev pub char_at : Text → ℕ → ℕ
char_at [] n = 0
char_at (c ∷ cs) zero = c
char_at (c ∷ cs) (suc n) = char_at cs n

abbrev pub draws : (ℕ → ℕ) → ℕ → List ℕ
draws random zero = []
draws random (suc n) = draws random n ++ (random n % length alphabet ∷ [])

unfoldable pub generate_web_password : (ℕ → ℕ) → Text
generate_web_password random = map (char_at alphabet) (draws random 20)

-- The password that was made up, if any.
unfoldable pub ensure_web_gui_password : (ℕ → ℕ) → Config → Config × Option Text
ensure_web_gui_password random config = elim (filled config.web_gui_password) [
  | some p ↦ (config, none)
  | none ↦ (
    record config { web_gui_password = some (generate_web_password random) },
    some (generate_web_password random),
  )
]

abbrev pub first_part : List Text → Text
first_part [] = []
first_part (t ∷ ts) = t

abbrev pub is_pinned : Text → Bool
is_pinned url =
    not (length url == 0)
    && is_cofl_url url
    && not (text_eq (first_part (split b'/' (host_of url))) (codes "sky.coflnet.com"))

-- The address that was cleared, if any.
unfoldable pub reset_regional_websocket_url : Config → Config × Option Text
unfolding trim is_cofl_url host_of split
reset_regional_websocket_url config =
    if is_pinned (trim config.websocket_url)
    then (record config { websocket_url = default_websocket_url }, some config.websocket_url)
    else (config, none)

abbrev pub to_ascii_uppercase : ℕ → ℕ
to_ascii_uppercase c = if is_ascii_lower c then c - 32 else c

abbrev pub canon_finder : Text → Text
canon_finder s = map to_ascii_uppercase (retain is_ascii_alphanumeric s)

unfoldable pub should_not_relist_finder : Config → Text → Bool
should_not_relist_finder config finder =
    not (length (canon_finder finder) == 0)
    && any (λ f. text_eq (canon_finder f) (canon_finder finder)) config.do_not_relist_finders

-- A ceiling above `i64::MAX` wraps around, as `as i64` does.
unfoldable pub should_not_relist_profit : Config → ℤ → Bool
should_not_relist_profit config profit =
    ltb 0 config.do_not_relist_over_profit
    && leb_int (as_i64 config.do_not_relist_over_profit) profit

unfoldable pub active_webhook_url : Config → Option Text
active_webhook_url config = filled config.webhook_url

unfoldable pub active_bazaar_webhook_url : Config → Option Text
unfolding active_webhook_url
active_bazaar_webhook_url config = elim (filled config.bazaar_webhook_url) [
  | some url ↦ some url
  | none ↦ active_webhook_url config
]

unfoldable pub active_finder_flip_webhook_url : Config → Option Text
active_finder_flip_webhook_url config = filled config.finder_flip_webhook_url

unfoldable pub active_discord_id : Config → Option Text
active_discord_id config = filled config.discord_id

abbrev pub is_filled : Text → Bool
is_filled t = not (length t == 0)

abbrev pub listed : Option Text → List Text
listed none = []
listed (some s) = retain is_filled (map trim (split b',' s))

unfoldable pub backend_allowed_ids_list : Config → List Text
unfolding trim split
backend_allowed_ids_list config = listed config.backend_allowed_ids

unfoldable pub ingame_names : Config → List Text
unfolding trim split
ingame_names config = listed config.ingame_name

abbrev pub before : ℕ → Text → Text
before sep [] = []
before sep (c ∷ cs) = let rest = before sep cs in if c == sep then [] else c ∷ rest

abbrev pub behind : ℕ → Text → Option Text
behind sep [] = none
behind sep (c ∷ cs) = let rest = behind sep cs in if c == sep then some cs else rest

unfoldable pub proxy_username : Config → Option Text
proxy_username config = elim config.proxy_credentials [
  | none ↦ none
  | some creds ↦ some (before b':' creds)
]

unfoldable pub proxy_password : Config → Option Text
proxy_password config = elim config.proxy_credentials [
  | none ↦ none
  | some creds ↦ behind b':' creds
]
