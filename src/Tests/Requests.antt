-- ===== src/Tests/Requests.antt =====
-- Two requests and a redirect target, and what the theorems on http/guards.rs say of them.
use session_broker.Base.{◌≡◌, ◌↔◌, refl, ◌∷◌, [], none, some}
use session_broker.Guards.Origin.{
  Text, Headers, sec_fetch_site, origin, sec_fetch_mode, AllowDirectNavigation, accepted, none_text,
  same, check_site, check_origin, require_same_origin, IsSameOrigin,
  require_same_origin-IsSameOrigin,
}
use session_broker.Guards.Redirect.{
  IsLocalPath, check_path, is_authority, has_line_break, safe_return_to, safe_return_to-IsLocalPath,
}

program : Unit {0}
unfolding same check_site check_origin require_same_origin check_path is_authority has_line_break
    safe_return_to
program = tt

-- "b.io"
abbrev broker : Text
broker = 98 ∷ 46 ∷ 105 ∷ 111 ∷ []

abbrev direct_request : Headers
direct_request sec_fetch_site = some none_text
direct_request origin = none
direct_request sec_fetch_mode = none

direct_passes : require_same_origin direct_request broker AllowDirectNavigation.yes ≡ accepted
unfolding program
direct_passes = refl

require_same_origin-IsSameOrigin_example :
    (require_same_origin direct_request broker AllowDirectNavigation.no ≡ accepted)
    ↔ IsSameOrigin direct_request broker AllowDirectNavigation.no
require_same_origin-IsSameOrigin_example =
    require_same_origin-IsSameOrigin direct_request broker AllowDirectNavigation.no

-- A slash, a tab, a slash and "e".
abbrev tabbed : Text
tabbed = 47 ∷ 9 ∷ 47 ∷ 101 ∷ []

tab_passes : safe_return_to (some tabbed) ≡ some tabbed
unfolding program
tab_passes = refl

safe_return_to-IsLocalPath_example :
    (safe_return_to (some tabbed) ≡ some tabbed)
    ↔ ((some tabbed ≡ some tabbed) × IsLocalPath tabbed)
safe_return_to-IsLocalPath_example = safe_return_to-IsLocalPath (some tabbed) tabbed
