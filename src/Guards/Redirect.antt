-- ===== src/Guards/Redirect.antt =====
-- http/guards.rs, `safe_return_to`.
use session_broker.Base.{
  some-inj, ℕ, ◌≡◌, ◌≢◌, ◌↔◌, refl, ap, ◌∷◌, [], Bool, true, false, ◌||◌, Option, none, some, ◌==◌,
  if◌then◌else◌, arith, All,
}
use session_broker.Guards.Origin.{Text}

abbrev pub slash : ℕ
slash = 47

abbrev pub backslash : ℕ
backslash = 92

unfoldable pub has_line_break : Text → Bool
has_line_break [] = false
has_line_break (c ∷ s) = let rest = has_line_break s in if c == 13 || c == 10 then true else rest

-- The second character.
unfoldable pub is_authority : Text → Bool
is_authority [] = false
is_authority (c ∷ s) = c == slash || c == backslash

unfoldable pub check_path : Text → Option Text
unfolding is_authority has_line_break
check_path [] = none
check_path (c ∷ s) =
    if c == slash
    then (if is_authority s then none else if has_line_break (c ∷ s) then none else some (c ∷ s))
    else none

unfoldable pub safe_return_to : Option Text → Option Text
unfolding check_path
safe_return_to none = none
safe_return_to (some value) = check_path value

abbrev pub StartsAlone : Text → Type 0
StartsAlone [] = Unit
StartsAlone (c ∷ s) = (c ≢ slash) × (c ≢ backslash)

-- A path that begins with one slash, no slash or backslash after it, and has no CR or LF.
abbrev pub IsLocalPath : Text → Type 0
IsLocalPath [] = ⊥
IsLocalPath (c ∷ s) = (c ≡ slash) × StartsAlone s × All (λ (d : ℕ). (d ≢ 13) × (d ≢ 10)) (c ∷ s)

line_break_lem : (s : Text) → (has_line_break s ≡ false) ↔ All (λ (d : ℕ). (d ≢ 13) × (d ≢ 10)) s
unfolding has_line_break
line_break_lem [] = (λ h. tt, λ h. refl)
line_break_lem (c ∷ s) = ground (arith, line_break_lem s)

authority_lem : (s : Text) → (is_authority s ≡ false) ↔ StartsAlone s
unfolding is_authority
authority_lem [] = (λ h. tt, λ h. refl)
authority_lem (c ∷ s) = ground arith

check_path_lem : (v : Text) → (check_path v ≡ some v) ↔ IsLocalPath v
unfolding check_path
check_path_lem [] = (λ h. cc, λ h. elim h [ ])
check_path_lem (c ∷ s) = ground (arith, authority_lem s, line_break_lem (c ∷ s))

check_path-same : (v w : Text) → check_path v ≡ some w → v ≡ w
unfolding check_path
check_path-same [] w h = cc
check_path-same (c ∷ s) w h = ground arith

-- INV-4. `safe_return_to` lets a path through exactly when it begins with one slash, with no
-- slash or backslash after that, and has no CR or LF; it never changes one. A tab is no bar, also
-- between two slashes.
pub safe_return_to-IsLocalPath :
    (candidate : Option Text) (path : Text)
    → (safe_return_to candidate ≡ some path) ↔ ((candidate ≡ some path) × IsLocalPath path)
unfolding safe_return_to
safe_return_to-IsLocalPath none path = (λ h. cc, λ h. cc)
safe_return_to-IsLocalPath (some v) path = (
  λ h.
      let it = check_path-same v path h in
      (ap (λ (s : Text). some s) it, (check_path_lem path).0 (rw it at h)),
  λ h. rw (some-inj v path h.0) ((check_path_lem path).1 h.1),
)
