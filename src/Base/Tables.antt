-- ===== src/Base/Tables.antt =====
-- SQL tables as association lists by their primary key: updates and deletions by a condition.
use Prim.Native.Nat.{ℕ}
use mathlib.Core.Path.{◌≡◌, refl}
use mathlib.Core.Bool.{Bool, true, false}
use mathlib.Core.List.{List, [], ◌∷◌}
use mathlib.Core.Option.{Option, none, some}
use native.Mathlib.Omega.{arith}
use session_broker.Base.Tests.{◌==◌, if◌then◌else◌, Bool-cases, Option-cases, some-inj}
use mathlib.Core.Logic.{◌⊎◌, inl, inr}
use session_broker.Base.Assoc.{get, remove, get-remove, HasUniqueKeys}

module _ {ℓ} {V : Type ℓ} where
  -- `UPDATE … WHERE key = k`; no row, no change.
  unfoldable pub update : ℕ → (V → V) → List (ℕ × V) → List (ℕ × V)
  update k f [] = []
  update k f ((j, v) ∷ m) =
      let rest = update k f m in if j == k then (j, f v) ∷ m else (j, v) ∷ rest

  -- `DELETE … WHERE`: the rows that the condition does not name stay.
  unfoldable pub delete_where : (V → Bool) → List (ℕ × V) → List (ℕ × V)
  delete_where p [] = []
  delete_where p ((j, v) ∷ m) = let rest = delete_where p m in if p v then rest else (j, v) ∷ rest

  abbrev updated : (V → V) → Option V → Option V
  updated f none = none
  updated f (some v) = some (f v)

  abbrev kept : (V → Bool) → Option V → Option V
  kept p none = none
  kept p (some v) = if p v then none else some v

  pub get-update :
      (k j : ℕ) (f : V → V) (m : List (ℕ × V))
      → get j (update k f m) ≡ (if k == j then updated f (get j m) else get j m)
  unfolding get update
  get-update k j f [] = ground arith
  get-update k j f ((i, v) ∷ m) = ground (arith, get-update k j f m)

  pub get-delete_missing :
      (j : ℕ) (p : V → Bool) (m : List (ℕ × V)) → get j m ≡ none → get j (delete_where p m) ≡ none
  unfolding get delete_where
  get-delete_missing j p [] h = refl
  get-delete_missing j p ((i, v) ∷ m) h = ground (arith, get-delete_missing j p m)

  pub get-delete_where :
      (j : ℕ) (p : V → Bool) (m : List (ℕ × V))
      → HasUniqueKeys m
      → get j (delete_where p m) ≡ kept p (get j m)
  unfolding get delete_where
  get-delete_where j p [] u = refl
  get-delete_where j p ((i, v) ∷ m) u =
      ground (arith, get-delete_where j p m u.1, get-delete_missing j p m, u.0)

  pub update-HasUniqueKeys :
      (k : ℕ) (f : V → V) (m : List (ℕ × V)) → HasUniqueKeys m → HasUniqueKeys (update k f m)
  unfolding update get
  update-HasUniqueKeys k f [] u = tt
  update-HasUniqueKeys k f ((i, v) ∷ m) u =
      ground (arith, update-HasUniqueKeys k f m u.1, get-update k i f m, u.0)

  pub delete_where-HasUniqueKeys :
      (p : V → Bool) (m : List (ℕ × V)) → HasUniqueKeys m → HasUniqueKeys (delete_where p m)
  unfolding delete_where get
  delete_where-HasUniqueKeys p [] u = tt
  delete_where-HasUniqueKeys p ((i, v) ∷ m) u =
      ground (arith, delete_where-HasUniqueKeys p m u.1, get-delete_missing i p m, u.0)

  pub remove-HasUniqueKeys :
      (k : ℕ) (m : List (ℕ × V)) → HasUniqueKeys m → HasUniqueKeys (remove k m)
  unfolding remove get
  remove-HasUniqueKeys k [] u = tt
  remove-HasUniqueKeys k ((i, v) ∷ m) u =
      ground (arith, remove-HasUniqueKeys k m u.1, get-remove k i m, u.0)

  no_row :
      (k j : ℕ) (f : V → V) (m : List (ℕ × V)) (v : V)
      → get j (update k f m) ≡ some v
      → get j m ≡ none
      → ⊥
  no_row k j f m v h missing = ground (arith, get-update k j f m)

  row_at :
      (k j : ℕ) (f : V → V) (m : List (ℕ × V)) (v u : V)
      → get j (update k f m) ≡ some v
      → get j m ≡ some u
      → (k == j) ≡ true
      → some (f u) ≡ some v
  row_at k j f m v u h at same = ground (arith, get-update k j f m)

  row_off :
      (k j : ℕ) (f : V → V) (m : List (ℕ × V)) (v u : V)
      → get j (update k f m) ≡ some v
      → get j m ≡ some u
      → (k == j) ≡ false
      → some u ≡ some v
  row_off k j f m v u h at other = ground (arith, get-update k j f m)

  -- Where a row that is found after an update comes from.
  pub update-origin :
      (k j : ℕ) (f : V → V) (m : List (ℕ × V)) (v : V)
      → get j (update k f m) ≡ some v
      → (u : V) × (get j m ≡ some u) × ((f u ≡ v) ⊎ (u ≡ v))
  update-origin k j f m v h = elim (Option-cases (get j m)) [
    | inl missing ↦ elim (no_row k j f m v h missing) [ ]
    | inr (u, at) ↦ elim (Bool-cases (k == j)) [
      | inl same ↦ (u, at, inl (some-inj _ _ (row_at k j f m v u h at same)))
      | inr other ↦ (u, at, inr (some-inj _ _ (row_off k j f m v u h at other)))
    ]
  ]
