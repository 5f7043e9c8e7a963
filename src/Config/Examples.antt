-- ===== src/Config/Examples.antt =====
-- src/config/types.rs: settings with a pinned address and no password.
use escrow.Common.{
  wrapping_add, ℕ, ◌%◌, ◌≡◌, refl, true, none, some, List, [], ◌∷◌, length, text_keys, side_keys,
  nat_eq, Text, codes, pos,
}
use escrow.Panel.{is_public_path, request_is_authorized}
use escrow.Config.{
  Config, ensure_web_gui_password, reset_regional_websocket_url, should_not_relist_finder,
  should_not_relist_profit, active_webhook_url, active_bazaar_webhook_url,
  active_finder_flip_webhook_url, active_discord_id, backend_allowed_ids_list, ingame_names,
  proxy_username, proxy_password, default_websocket_url,
}
use escrow.Config.Healing.{request_is_authorized-ensure_web_gui_password}

abbrev config : Config
config = record {
  web_gui_password = some [];
  websocket_url = codes "wss://us-sky.coflnet.com/modsocket";
  webhook_url = some (codes "http://a");
  bazaar_webhook_url = some [];
  finder_flip_webhook_url = none;
  discord_id = none;
  backend_allowed_ids = none;
  ingame_name = some (codes "Account1, Account2,");
  proxy_credentials = some (codes "user:pass:word");
  do_not_relist_finders = codes "craftcost" ∷ [];
  do_not_relist_over_profit = 200_000_000;
}

two_names : ingame_names config ≡ codes "Account1" ∷ codes "Account2" ∷ []
unfolding ingame_names
two_names = refl

no_ids : backend_allowed_ids_list config ≡ []
unfolding backend_allowed_ids_list
no_ids = refl

credentials :
    (proxy_username config ≡ some (codes "user"))
    × (proxy_password config ≡ some (codes "pass:word"))
unfolding proxy_username proxy_password
credentials = (refl, refl)

falls_back : active_bazaar_webhook_url config ≡ active_webhook_url config
unfolding active_bazaar_webhook_url active_webhook_url
falls_back = refl

no_feed : (active_finder_flip_webhook_url config ≡ none) × (active_discord_id config ≡ none)
unfolding active_finder_flip_webhook_url active_discord_id
no_feed = (refl, refl)

spelling : should_not_relist_finder config (codes "CRAFT_COST") ≡ true
unfolding should_not_relist_finder
spelling = refl

at_ceiling : should_not_relist_profit config (pos 200_000_000) ≡ true
unfolding should_not_relist_profit wrapping_add
at_ceiling = refl

healed : (reset_regional_websocket_url config).0.websocket_url ≡ default_websocket_url
unfolding reset_regional_websocket_url
healed = refl

abbrev toy_hmac : Text → Text → List ℕ
toy_hmac key message = length message % 256 ∷ []

request_is_authorized-ensure_web_gui_password_example :
    request_is_authorized toy_hmac
      (ensure_web_gui_password (λ n. n) config).0.web_gui_password
      8080
      (pos 0)
      (codes "/api/status")
      []
    ≡ is_public_path (codes "/api/status")
request_is_authorized-ensure_web_gui_password_example =
    request_is_authorized-ensure_web_gui_password (λ n. n) config toy_hmac 8080 (pos 0)
      (codes "/api/status")
