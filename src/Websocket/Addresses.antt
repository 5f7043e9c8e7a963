-- ===== src/Websocket/Addresses.antt =====
-- src/websocket/client.rs: the address of a server.
use escrow.Common.{
  ℕ, ◌≡◌, refl, sym, ap, ◌∙◌, inl, inr, Bool, true, false, not, ◌&&◌, [], ◌∷◌, ◌++◌, arith, ◌==◌,
  Bool-cases, text_keys, side_keys, nat_eq, Text, codes,
}
use escrow.Strings.{contains, starts_with}
use escrow.Panel.{strip_prefix}
use escrow.Websocket.{host_of, is_cofl_host, is_cofl_url, normalize_ws_url}

starts_with-last :
    (q h : Text) (d c : ℕ)
    → (d == c) ≡ false
    → starts_with (q ++ (d ∷ [])) (h ++ (c ∷ [])) ≡ starts_with (q ++ (d ∷ [])) h
starts_with-last [] [] d c e = rw e refl
starts_with-last [] (x ∷ h) d c e = refl
starts_with-last (y ∷ []) [] d c e = ground arith
starts_with-last (y ∷ z ∷ q) [] d c e = ground arith
starts_with-last (y ∷ q) (x ∷ h) d c e = rw (starts_with-last q h d c e) refl

starts_with-nil : (q : Text) (d : ℕ) → starts_with (q ++ (d ∷ [])) [] ≡ false
starts_with-nil [] d = refl
starts_with-nil (x ∷ q) d = refl

contains-last :
    (q h : Text) (d c : ℕ)
    → (d == c) ≡ false
    → contains (q ++ (d ∷ [])) (h ++ (c ∷ [])) ≡ contains (q ++ (d ∷ [])) h
unfolding contains
contains-last q [] d c e = rw (starts_with-last q [] d c e, starts_with-nil q d) refl
contains-last q (x ∷ h) d c e = rw (starts_with-last q (x ∷ h) d c e, contains-last q h d c e) refl

contains-slash : (h : Text) → contains (codes "/") (h ++ codes "/") ≡ true
unfolding contains
contains-slash [] = refl
contains-slash (x ∷ h) = rw (contains-slash h) (ground arith)

is_cofl_host-slash : (h : Text) → is_cofl_host (h ++ codes "/") ≡ is_cofl_host h
is_cofl_host-slash h =
    rw
      (
        contains-last (codes "coflne") h b't' b'/' refl,
        contains-last (codes "/modsocke") h b't' b'/' refl,
      )
      refl

-- An address with the plain scheme is that scheme and the host.
starts_with-split : (p t : Text) → starts_with p t ≡ true → (h : Text) × (t ≡ p ++ h)
starts_with-split [] t e = (t, refl)
starts_with-split (c ∷ p) [] e = absurd (cc e)
starts_with-split (c ∷ p) (d ∷ t) e =
    let (h, rest) = starts_with-split p t (ground (arith, e)) in
    let same : d ≡ c = ground (arith, e) in (h, ap (λ x. x ∷ t) same ∙ ap (λ r. c ∷ r) rest)

host_of-plain : (h : Text) → host_of (codes "ws://" ++ h) ≡ h
unfolding host_of strip_prefix
host_of-plain h = refl

host_of-secure : (h : Text) → host_of (codes "wss://" ++ h) ≡ h
unfolding host_of strip_prefix
host_of-secure h = refl

is_cofl_url-host_of : (url : Text) → is_cofl_url url ≡ is_cofl_host (host_of url)
unfolding is_cofl_url
is_cofl_url-host_of url = refl

-- The three ways in which an address is normalized.
is_plain : Text → Bool
is_plain url = not (is_cofl_url url) && starts_with (codes "ws://") url

normalize_ws_url-secure :
    (url : Text) → is_plain url ≡ false → normalize_ws_url url ≡ codes "wss://" ++ host_of url
unfolding normalize_ws_url is_plain
normalize_ws_url-secure url e = rw e refl

normalize_ws_url-kept :
    (url : Text)
    → is_plain url ≡ true
    → contains (codes "/") (host_of url) ≡ true
    → normalize_ws_url url ≡ url
unfolding normalize_ws_url is_plain
normalize_ws_url-kept url e h = rw (e, h) refl

normalize_ws_url-bare :
    (url : Text)
    → is_plain url ≡ true
    → contains (codes "/") (host_of url) ≡ false
    → normalize_ws_url url ≡ url ++ codes "/"
unfolding normalize_ws_url is_plain
normalize_ws_url-bare url e h = rw (e, h) refl

abbrev IsNormal : Text → Text → Type 0
IsNormal url n = (is_cofl_url n ≡ is_cofl_url url) × (normalize_ws_url n ≡ n)

not_plain-secure : (h : Text) → is_plain (codes "wss://" ++ h) ≡ false
unfolding is_plain
not_plain-secure h = ground arith

secure-IsNormal : (url : Text) → IsNormal url (codes "wss://" ++ host_of url)
secure-IsNormal url =
    let n = codes "wss://" ++ host_of url in
    (
      is_cofl_url-host_of n
          ∙ ap is_cofl_host (host_of-secure (host_of url))
          ∙ sym (is_cofl_url-host_of url),
      normalize_ws_url-secure n (not_plain-secure (host_of url))
          ∙ ap (λ t. codes "wss://" ++ t) (host_of-secure (host_of url)),
    )

is_cofl_url-slash :
    (h : Text) → is_cofl_url (codes "ws://" ++ (h ++ codes "/")) ≡ is_cofl_url (codes "ws://" ++ h)
is_cofl_url-slash h =
    is_cofl_url-host_of (codes "ws://" ++ (h ++ codes "/"))
    ∙ ap is_cofl_host (host_of-plain (h ++ codes "/"))
    ∙ is_cofl_host-slash h
    ∙ ap is_cofl_host (sym (host_of-plain h))
    ∙ sym (is_cofl_url-host_of (codes "ws://" ++ h))

is_plain-slash :
    (h : Text) → is_plain (codes "ws://" ++ (h ++ codes "/")) ≡ is_plain (codes "ws://" ++ h)
unfolding is_plain
is_plain-slash h = ap (λ b. not b && true) (is_cofl_url-slash h)

bare-IsNormal :
    (h : Text)
    → is_plain (codes "ws://" ++ h) ≡ true
    → IsNormal (codes "ws://" ++ h) (codes "ws://" ++ (h ++ codes "/"))
bare-IsNormal h e = (
  is_cofl_url-slash h,
  normalize_ws_url-kept (codes "ws://" ++ (h ++ codes "/")) (is_plain-slash h ∙ e)
      (ap (contains (codes "/")) (host_of-plain (h ++ codes "/")) ∙ contains-slash h),
)

starts-plain : (url : Text) → is_plain url ≡ true → starts_with (codes "ws://") url ≡ true
unfolding is_plain
starts-plain url e = ground (arith, e)

slash-IsNormal : (url : Text) → is_plain url ≡ true → IsNormal url (url ++ codes "/")
slash-IsNormal url e =
    let (h, shape) = starts_with-split (codes "ws://") url (starts-plain url e) in
    rw shape (bare-IsNormal h (rw (sym shape) e))

normalize_ws_url-IsNormal : (url : Text) → IsNormal url (normalize_ws_url url)
normalize_ws_url-IsNormal url = elim (Bool-cases (is_plain url)) [
  | inr e ↦ rw (normalize_ws_url-secure url e) (secure-IsNormal url)
  | inl e ↦ elim (Bool-cases (contains (codes "/") (host_of url))) [
    | inl h ↦ rw (normalize_ws_url-kept url e h) (refl, normalize_ws_url-kept url e h)
    | inr h ↦ rw (normalize_ws_url-bare url e h) (slash-IsNormal url e)
  ]
]

-- Normalizing an address does not change which kind of server it names, and normalizing twice is
-- normalizing once.
pub is_cofl_url-normalize_ws_url :
    (url : Text)
    → (is_cofl_url (normalize_ws_url url) ≡ is_cofl_url url)
      × (normalize_ws_url (normalize_ws_url url) ≡ normalize_ws_url url)
is_cofl_url-normalize_ws_url url = normalize_ws_url-IsNormal url
