-- ===== src/Websocket/Examples.antt =====
-- src/websocket/client.rs: examples.
use escrow.Common.{◌≡◌, refl, List, [], ◌∷◌, arith, text_keys, side_keys, nat_eq, Text, codes}
use escrow.Websocket.{
  is_cofl_url, normalize_ws_url, License, parse_line, parse_license_entries,
  parse_license_page_number,
}
use escrow.Websocket.Addresses.{is_cofl_url-normalize_ws_url}
use escrow.Websocket.Licenses.{render_all, licenses, AllShown, parse_license_entries-render_all}

finder : normalize_ws_url (codes "ws://127.0.0.1:15101") ≡ codes "ws://127.0.0.1:15101/"
unfolding normalize_ws_url
finder = refl

cofl :
    normalize_ws_url (codes "ws://sky.coflnet.com/modsocket")
    ≡ codes "wss://sky.coflnet.com/modsocket"
unfolding normalize_ws_url
cofl = refl

-- A line without a number is counted, also where it has no name.
unnumbered :
    parse_license_entries (codes "§7> §a §2NONE" ∷ codes "§7> §aSteve §2§mNONE§c expired" ∷ [])
    ≡ record { ign = codes "Steve"; index = 2; tier = codes "NONE" } ∷ []
unfolding parse_license_entries parse_line
unnumbered = refl

second_page : parse_license_page_number (codes "Content (page 2):" ∷ []) ≡ 2
unfolding parse_license_page_number
second_page = refl

is_cofl_url-normalize_ws_url_example :
    (is_cofl_url (normalize_ws_url (codes "ws://host")) ≡ is_cofl_url (codes "ws://host"))
    × (normalize_ws_url (normalize_ws_url (codes "ws://host"))
        ≡ normalize_ws_url (codes "ws://host"))
is_cofl_url-normalize_ws_url_example = is_cofl_url-normalize_ws_url (codes "ws://host")

abbrev shown : List (License × Text)
shown =
    (record { ign = codes "TreXitooo"; index = 16; tier = codes "PREMIUM" }, codes "29.9d")
    ∷ (record { ign = codes "Steve"; index = 17; tier = codes "NONE" }, [])
    ∷ []

shown-AllShown : AllShown shown
shown-AllShown = (
  ((omega arith, λ h. cc h, λ h. cc h, refl, refl), refl, refl, refl),
  (((omega arith, λ h. cc h, λ h. cc h, refl, refl), refl, refl, refl), tt),
)

parse_license_entries-render_all_example :
    parse_license_entries (render_all shown ∷ []) ≡ licenses shown
parse_license_entries-render_all_example = parse_license_entries-render_all shown shown-AllShown
