-- ===== src/Guards/Origin.antt =====
-- http/guards.rs, `require_same_origin` and `is_navigation`. A text is the list of its characters,
-- and `headers` gives what `header_str` reads of a header: its value, if it is there and legible.
use session_broker.Base.{
  ℕ, ◌≡◌, ◌⊎◌, ◌↔◌, refl, sym, ap, ◌∙◌, ◌∷◌, [], Bool, true, false, ◌&&◌, List, Option, none, some,
  ◌==◌, if◌then◌else◌, inl, inr, Option-cases, arith,
}

abbrev pub Text : Type 0
Text = List ℕ

pub data HeaderName : Type 0 where
  sec_fetch_site origin sec_fetch_mode : HeaderName

abbrev pub Headers : Type 0
Headers = HeaderName → Option Text

pub data AllowDirectNavigation : Type 0 where
  yes no : AllowDirectNavigation

-- The three refusals of `require_same_origin`, all with the code `CsrfRejected`.
pub data Csrf : Type 0 where
  accepted : Csrf
  cross_origin : Text → Csrf
  other_origin : Text → Csrf
  no_origin : Csrf

unfoldable pub same : Text → Text → Bool
same [] [] = true
same [] (d ∷ t) = false
same (c ∷ s) [] = false
same (c ∷ s) (d ∷ t) = let rest = same s t in if c == d then rest else false

-- "same-origin", "none" and "navigate".
abbrev pub same_origin : Text
same_origin = 115 ∷ 97 ∷ 109 ∷ 101 ∷ 45 ∷ 111 ∷ 114 ∷ 105 ∷ 103 ∷ 105 ∷ 110 ∷ []

abbrev pub none_text : Text
none_text = 110 ∷ 111 ∷ 110 ∷ 101 ∷ []

abbrev pub navigate : Text
navigate = 110 ∷ 97 ∷ 118 ∷ 105 ∷ 103 ∷ 97 ∷ 116 ∷ 101 ∷ []

abbrev allows : AllowDirectNavigation → Bool
allows yes = true
allows no = false

unfoldable pub check_site : Text → AllowDirectNavigation → Csrf
check_site site direct =
    if same site same_origin
    then accepted
    else if same site none_text && allows direct
    then accepted
    else cross_origin site

unfoldable pub check_origin : Option Text → Text → Csrf
check_origin none expected = no_origin
check_origin (some given) expected = if same given expected then accepted else other_origin given

unfoldable pub require_same_origin : Headers → Text → AllowDirectNavigation → Csrf
unfolding check_site check_origin
require_same_origin headers expected direct = elim (headers sec_fetch_site) [
  | some site ↦ check_site site direct
  | none ↦ check_origin (headers origin) expected
]

unfoldable pub is_navigation : Headers → Bool
is_navigation headers = elim (headers sec_fetch_mode) [
  | some mode ↦ same mode navigate
  | none ↦ false
]

pub same_sound : (s t : Text) → same s t ≡ true → s ≡ t
unfolding same
same_sound [] [] h = refl
same_sound [] (d ∷ t) h = cc
same_sound (c ∷ s) [] h = cc
same_sound (c ∷ s) (d ∷ t) h = ground (arith, same_sound s t)

pub same_refl : (s : Text) → same s s ≡ true
unfolding same
same_refl [] = refl
same_refl (c ∷ s) = ground (arith, same_refl s)

-- When a request passes: the browser says `same-origin`; or it says `none` and the handler
-- tolerates direct navigation; or it says nothing and the `Origin` header is the broker's own.
abbrev pub IsSameOrigin : Headers → Text → AllowDirectNavigation → Type 0
IsSameOrigin headers expected direct =
    (headers sec_fetch_site ≡ some same_origin)
    ⊎ ((headers sec_fetch_site ≡ some none_text) × (direct ≡ yes))
    ⊎ ((headers sec_fetch_site ≡ none) × (headers origin ≡ some expected))

refused-accepted : {s : Text} → cross_origin s ≡ accepted → ⊥
refused-accepted h = cc

site_lem :
    (site : Text) (direct : AllowDirectNavigation)
    → check_site site direct ≡ accepted
    → (site ≡ same_origin) ⊎ ((site ≡ none_text) × (direct ≡ yes))
unfolding check_site
site_lem site yes h = ground (arith, same_sound site same_origin, same_sound site none_text)
site_lem site no h = ground (arith, same_sound site same_origin, same_sound site none_text)

origin_lem :
    (given : Option Text) (expected : Text)
    → check_origin given expected ≡ accepted
    → given ≡ some expected
unfolding check_origin
origin_lem none expected h = cc
origin_lem (some given) expected h = ground (arith, same_sound given expected)

accepts :
    (headers : Headers) (expected : Text) (direct : AllowDirectNavigation)
    → require_same_origin headers expected direct ≡ accepted
    → IsSameOrigin headers expected direct
unfolding require_same_origin
accepts headers expected direct h = elim (Option-cases (headers sec_fetch_site)) [
  | inl missing ↦
      let same_as : require_same_origin headers expected direct
          ≡ check_origin (headers origin) expected =
        rw (missing, require_same_origin) refl in
      inr (inr (missing, origin_lem (headers origin) expected (sym same_as ∙ h)))
  | inr (site, at) ↦
      let same_as : require_same_origin headers expected direct ≡ check_site site direct =
        rw (at, require_same_origin) refl in
      elim (site_lem site direct (sym same_as ∙ h)) [
        | inl it ↦ inl (at ∙ ap (λ (s : Text). some s) it)
        | inr (it, tolerant) ↦ inr (inl (at ∙ ap (λ (s : Text). some s) it, tolerant))
      ]
]

passes :
    (headers : Headers) (expected : Text) (direct : AllowDirectNavigation)
    → IsSameOrigin headers expected direct
    → require_same_origin headers expected direct ≡ accepted
unfolding require_same_origin check_site check_origin same
passes headers expected direct (inl at) = rw (at, require_same_origin) refl
passes headers expected direct (inr (inl (at, tolerant))) =
    rw (at, require_same_origin, tolerant) refl
passes headers expected direct (inr (inr (missing, at))) =
    rw (missing, require_same_origin, at, check_origin, same_refl expected) refl

-- INV-2. A request passes exactly when it is same-origin: its `Sec-Fetch-Site` is `same-origin`,
-- or is `none` where the handler tolerates direct navigation; or it has none, and its `Origin`
-- is the broker's. A request with neither header never passes.
pub require_same_origin-IsSameOrigin :
    (headers : Headers) (expected : Text) (direct : AllowDirectNavigation)
    → (require_same_origin headers expected direct ≡ accepted)
      ↔ IsSameOrigin headers expected direct
require_same_origin-IsSameOrigin headers expected direct =
    (accepts headers expected direct, passes headers expected direct)
