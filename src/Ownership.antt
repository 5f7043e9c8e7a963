-- ===== src/Ownership.antt =====
-- src/auction_ownership.rs: which auctions of a shared window this account listed itself. The
-- process-wide stores are a record; the clock's reading in seconds is an argument, and so is what the
-- servers answer.
pub mod Names
pub mod SameName
pub mod Verdicts
pub mod Updates
pub mod Listings
pub mod Lasting
mod Examples
use escrow.Common.{
  ℕ, zero, suc, ◌+◌, ◌-◌, ◌*◌, ◌/◌, ◌%◌, ◌^◌, ◌≤◌, ◌<◌, ◌≡◌, refl, sym, ap, ◌∙◌, ◌≢◌, ◌↔◌, ◌⊎◌, inl,
  inr, Bool, true, false, not, ◌&&◌, ◌||◌, Option, none, some, List, [], ◌∷◌, ◌++◌, map, reverse,
  arith, ltb, leb, ◌==◌, if◌then◌else◌, bool_eq, is_some, or_else, Bool-cases, Option-cases,
  ==_refl, ==_eq, length, head?, drop, length-append, length-map, length-drop, retain, any, find,
  count, remove_last, count-append, retain-append, length-retain-le, length-retain, count_split,
  find-some, find-any, find-any_of, any-retain, count-any, Eq, lookup, insert, remove,
  lookup-insert, lookup-remove, DistinctKeys, text_keys, side_keys, nat_eq, Text, codes, text_eq,
  text_eq_refl, text_eq_eq, text_eq_sym, ℤ, pos, negsuc, u64_mod, wrapping_add, wrapping_sub, IsI64,
  int_eq, int_eq_iff, is_positive, wrapping_sub-wrapping_add, wrapping_sub_self,
}
use escrow.Strings.{
  trim, remove_minecraft_colors, contains, byte_len, is_ascii_alphanumeric, to_ascii_lowercase,
}

pub record OwnAuction : Type 0 where
  pub name : Text
  pub prices : List ℤ
  pub recorded_at : ℕ

pub data Ownership : Type 0 where
  ours foreign unknown : Ownership

pub record Stores : Type 0 where
  pub enabled : Bool
  pub own_listings : List OwnAuction
  pub remote_auctions : List OwnAuction
  pub remote_fetched : Bool

-- Seven days.
abbrev pub listing_ttl_secs : ℕ
listing_ttl_secs = 604800

abbrev pub max_listings : ℕ
max_listings = 2000

abbrev pub min_containment_len : ℕ
min_containment_len = 4

unfoldable pub set_enabled : Stores → Bool → Stores
set_enabled s enabled = record s { enabled = enabled }

-- The loop over the characters; `last_was_space` is its state.
unfoldable pub collapse : Bool → Text → Text
collapse last_was_space [] = []
collapse last_was_space (c ∷ cs) =
    let word = to_ascii_lowercase c ∷ collapse false cs in
    let space = collapse true cs in
    if is_ascii_alphanumeric c then word else if last_was_space then space else b' ' ∷ space

unfoldable pub normalize_item_name : Text → Text
unfolding collapse trim remove_minecraft_colors
normalize_item_name name = trim (collapse true (remove_minecraft_colors name))

abbrev pub is_empty_text : Text → Bool
is_empty_text [] = true
is_empty_text (_ ∷ _) = false

abbrev pub contained : Text → Text → Bool
contained short long = leb min_containment_len (byte_len short) && contains short long

unfoldable pub names_match : Text → Text → Bool
unfolding contains
names_match a b =
    if is_empty_text a || is_empty_text b
    then false
    else if text_eq a b
    then true
    else if leb (byte_len a) (byte_len b)
    then contained a b
    else contained b a

abbrev pub has_price : ℤ → List ℤ → Bool
has_price p = any (λ q. int_eq q p)

unfoldable pub prune : ℕ → List OwnAuction → List OwnAuction
prune now listings =
    let kept = retain (λ l. leb (now - listing_ttl_secs) l.recorded_at) listings in
    if ltb max_listings (length kept) then drop (length kept - max_listings) kept else kept

-- `iter_mut().find(p)` and a change of what is found.
abbrev pub update_first {ℓ} : {A : Type ℓ} → (A → Bool) → (A → A) → List A → Option (List A)
update_first p f [] = none
update_first p f (x ∷ xs) =
    if p x
    then some (f x ∷ xs)
    else (elim (update_first p f xs) [ none ↦ none | some ys ↦ some (x ∷ ys) ])

abbrev pub is_listing : Text → ℤ → OwnAuction → Bool
is_listing name price l = text_eq l.name name && has_price price l.prices

-- The listing of a new auction.
abbrev pub listing : Text → ℤ → ℕ → OwnAuction
listing name price now = record {
  name = name;
  prices = if is_positive price then price ∷ [] else [];
  recorded_at = now;
}

unfoldable pub recorded : List OwnAuction → ℕ → Text → ℤ → List OwnAuction
recorded listings now name price =
    or_else (update_first (is_listing name price) (λ l. record l { recorded_at = now }) listings)
      (listings ++ listing name price now ∷ [])

-- The listing is recorded under its normalised name.
unfoldable pub note_own_listing : Stores → ℕ → Text → ℤ → Stores
unfolding recorded prune
note_own_listing s now item_name price =
    let name = normalize_item_name item_name in
    if is_empty_text name
    then s
    else record s { own_listings = prune now (recorded s.own_listings now name price) }

-- Whether an auction speaks of the slot, whose price may be unknown.
unfoldable pub matches : Text → Option ℤ → OwnAuction → Bool
matches name none a = names_match a.name name
matches name (some p) a = names_match a.name name && (length a.prices == 0 || has_price p a.prices)

unfoldable pub ownership_of : Stores → Text → Option ℤ → Ownership
unfolding matches
ownership_of s item_name price =
    let name = normalize_item_name item_name in
    let has_data = not (length s.own_listings == 0) || s.remote_fetched in
    if is_empty_text name
    then unknown
    else if any (matches name price) s.own_listings || any (matches name price) s.remote_auctions
    then ours
    else if has_data
    then foreign
    else unknown

-- The file's listings, where it could be read and parsed.
unfoldable pub load_own_listings : Stores → ℕ → Option (List OwnAuction) → Stores
unfolding prune
load_own_listings s now none = s
load_own_listings s now (some listings) = record s { own_listings = prune now listings }

-- The prices of one auction of an answer: each positive value once.
unfoldable pub collect_prices : List ℤ → List (Option ℤ) → List ℤ
collect_prices prices [] = prices
collect_prices prices (none ∷ vs) = collect_prices prices vs
collect_prices prices (some p ∷ vs) =
    collect_prices (if is_positive p && not (has_price p prices) then prices ++ p ∷ [] else prices)
      vs

-- One auction of an answer: its name and the values of the price keys, where they are there.
abbrev pub Answered : Type 0
Answered = Option Text × List (Option ℤ)

unfoldable pub read_auctions : ℕ → List Answered → List OwnAuction
unfolding collect_prices
read_auctions now [] = []
read_auctions now ((none, vs) ∷ more) = read_auctions now more
read_auctions now ((some item_name, vs) ∷ more) =
    let name = normalize_item_name item_name in
    let rest = read_auctions now more in
    if is_empty_text name
    then rest
    else record { name = name; prices = collect_prices [] vs; recorded_at = now } ∷ rest

abbrev pub cofl_pages : ℕ
cofl_pages = 3

-- The loop over the pages of the fallback server: `none` is a page that failed, which ends the loop,
-- as an empty one does.
unfoldable pub read_pages : ℕ → ℕ → List (Option (List Answered)) → List OwnAuction
unfolding read_auctions
read_pages zero now pages = []
read_pages (suc left) now [] = []
read_pages (suc left) now (none ∷ pages) = []
read_pages (suc left) now (some [] ∷ pages) = []
read_pages (suc left) now (some (a ∷ more) ∷ pages) =
    read_auctions now (a ∷ more) ++ read_pages left now pages

-- `none` where no auction came back.
unfoldable pub fetch_cofl_auctions : ℕ → List (Option (List Answered)) → Option (List OwnAuction)
unfolding read_pages
fetch_cofl_auctions now pages = elim (read_pages cofl_pages now pages) [
  | [] ↦ none
  | a ∷ more ↦ some (a ∷ more)
]

abbrev pub has_key : Option Text → Bool
has_key none = false
has_key (some key) = not (is_empty_text key)

-- The first server's answer where there is a key and a usable answer, else the fallback's.
abbrev pub fetched :
    ℕ
    → Option Text
    → Option (List Answered)
    → List (Option (List Answered))
    → Option (List OwnAuction)
fetched now key answer pages =
    let cofl = fetch_cofl_auctions now pages in
    if has_key key
    then (elim answer [ some a ↦ some (read_auctions now a) | none ↦ cofl ])
    else cofl

-- `uuid` is what the name resolves to, `none` too where no client can be built; `hypixel` is the
-- first server's answer, `none` where it is not usable.
unfoldable pub refresh_remote :
    Stores
    → ℕ
    → Text
    → Option Text
    → Option Text
    → Option (List Answered)
    → List (Option (List Answered))
    → Stores × Bool
unfolding read_auctions fetch_cofl_auctions
refresh_remote s now ingame_name hypixel_api_key none hypixel pages = (s, false)
refresh_remote s now ingame_name hypixel_api_key (some uuid) hypixel pages =
    if is_empty_text ingame_name
    then (s, false)
    else (elim (fetched now hypixel_api_key hypixel pages) [
      | some auctions ↦ (record s { remote_auctions = auctions; remote_fetched = true }, true)
      | none ↦ (s, false)
    ])
