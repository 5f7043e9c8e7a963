-- ===== src/Config/Healing.antt =====
-- src/config/types.rs and src/web/server.rs: what the settings guarantee.
use escrow.Common.{
  ℕ, ◌≡◌, refl, sym, ap, ◌∙◌, inl, inr, Bool, true, false, Option, none, some, List, [], ◌∷◌,
  if◌then◌else◌, Bool-cases, Option-cases, text_keys, side_keys, nat_eq, Text, ℤ,
}
use escrow.Strings.{trim, trim_start, trim_end}
use escrow.Panel.{split, is_public_path, enforced, request_is_authorized}
use escrow.Websocket.{host_of, is_cofl_url}
use escrow.Config.{
  Config, default_websocket_url, filled, generate_web_password, ensure_web_gui_password, is_pinned,
  reset_regional_websocket_url,
}

generated :
    (random : ℕ → ℕ) → (p : Text) × (enforced (some (generate_web_password random)) ≡ some p)
unfolding generate_web_password
generated random = (generate_web_password random, refl)

filled-enforced : (password : Option Text) → filled password ≡ enforced password
filled-enforced none = refl
filled-enforced (some []) = refl
filled-enforced (some (c ∷ cs)) = refl

ensure_web_gui_password-none :
    (random : ℕ → ℕ) (config : Config)
    → filled config.web_gui_password ≡ none
    → (ensure_web_gui_password random config).0.web_gui_password
      ≡ some (generate_web_password random)
unfolding ensure_web_gui_password
ensure_web_gui_password-none random config e = rw (ensure_web_gui_password, e) refl

ensure_web_gui_password-some :
    (random : ℕ → ℕ) (config : Config) (p : Text)
    → filled config.web_gui_password ≡ some p
    → (ensure_web_gui_password random config).0.web_gui_password ≡ config.web_gui_password
unfolding ensure_web_gui_password
ensure_web_gui_password-some random config p e = rw (ensure_web_gui_password, e) refl

enforced-ensure_web_gui_password :
    (random : ℕ → ℕ) (config : Config)
    → (p : Text) × (enforced (ensure_web_gui_password random config).0.web_gui_password ≡ some p)
enforced-ensure_web_gui_password random config =
    elim (Option-cases (filled config.web_gui_password)) [
      | inl e ↦
          let (p, h) = generated random in
          (p, ap enforced (ensure_web_gui_password-none random config e) ∙ h)
      | inr (p, e) ↦ (
        p,
        ap enforced (ensure_web_gui_password-some random config p e)
            ∙ sym (filled-enforced config.web_gui_password)
            ∙ e,
      )
    ]

either : (b : Bool) → (if b then true else false) ≡ b
either true = refl
either false = refl

request_is_authorized-nil :
    (hmac : Text → Text → List ℕ) (password : Option Text) (p : Text) (port : ℕ) (now : ℤ)
    (path : Text)
    → enforced password ≡ some p
    → request_is_authorized hmac password port now path [] ≡ is_public_path path
unfolding request_is_authorized
request_is_authorized-nil hmac password p port now path e =
    rw (request_is_authorized, e) (either (is_public_path path))

-- Once the settings are loaded, whatever password they hold or if they hold none, a request that
-- brings no session is served for the public paths and for no other.
pub request_is_authorized-ensure_web_gui_password :
    (random : ℕ → ℕ) (config : Config) (hmac : Text → Text → List ℕ) (port : ℕ) (now : ℤ)
    (path : Text)
    → request_is_authorized hmac
        (ensure_web_gui_password random config).0.web_gui_password
        port
        now
        path
        []
      ≡ is_public_path path
request_is_authorized-ensure_web_gui_password random config hmac port now path =
    let (p, e) = enforced-ensure_web_gui_password random config in
    request_is_authorized-nil hmac (ensure_web_gui_password random config).0.web_gui_password p port
      now path e

default_not_pinned : is_pinned (trim default_websocket_url) ≡ false
unfolding trim trim_start trim_end host_of is_cofl_url split
default_not_pinned = refl

reset_regional_websocket_url-pinned :
    (config : Config)
    → is_pinned (trim config.websocket_url) ≡ true
    → reset_regional_websocket_url config
      ≡ (record config { websocket_url = default_websocket_url }, some config.websocket_url)
unfolding reset_regional_websocket_url
reset_regional_websocket_url-pinned config e = rw (reset_regional_websocket_url, e) refl

reset_regional_websocket_url-kept :
    (config : Config)
    → is_pinned (trim config.websocket_url) ≡ false
    → reset_regional_websocket_url config ≡ (config, none)
unfolding reset_regional_websocket_url
reset_regional_websocket_url-kept config e = rw (reset_regional_websocket_url, e) refl

-- Healing the address of the server twice is healing it once, and the second time nothing is
-- reported.
pub reset_regional_websocket_url_idem :
    (config : Config)
    → let healed = (reset_regional_websocket_url config).0 in
      reset_regional_websocket_url healed ≡ (healed, none)
reset_regional_websocket_url_idem config =
    elim (Bool-cases (is_pinned (trim config.websocket_url))) [
      | inl e ↦ rw (reset_regional_websocket_url-pinned config e) (
          reset_regional_websocket_url-kept
            (record config { websocket_url = default_websocket_url }) default_not_pinned)
      | inr e ↦
          rw (reset_regional_websocket_url-kept config e)
            (reset_regional_websocket_url-kept config e)
    ]
