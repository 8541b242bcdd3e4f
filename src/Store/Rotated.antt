-- ===== src/Store/Rotated.antt =====
-- session.rs: where the generations after a rotation come from.
use session_broker.Base.{
  ℕ, ◌≤◌, ◌≡◌, ◌∷◌, [], ◌++◌, true, List, none, some, ◌==◌, if◌then◌else◌, inl, inr, Bool-cases,
  arith, All, count, none-some, some-inj,
}
use mathlib.Core.Path.{subst}
use session_broker.Clock.{Timestamp}
use session_broker.Session.Types.{TokenHash, Generation, SessionPolicy}
use session_broker.Session.Entry.{find_gen}
use session_broker.Session.Reaping.{hashes}
use session_broker.Session.Finding.{find_gen_claimed}
use session_broker.Session.Minting.{survivors, survivors-All}

-- A generation with the hash is the one that is found by it.
abbrev IsFound : TokenHash → List Generation → Generation → Type 0
IsFound h gs g = (g.token_hash == h) ≡ true → find_gen h gs ≡ some g

All-map :
    (P Q : Generation → Type 0) (gs : List Generation)
    → ((g : Generation) → P g → Q g)
    → All P gs
    → All Q gs
All-map P Q [] f a = tt
All-map P Q (g ∷ gs) f a = (f g a.0, All-map P Q gs f a.1)

All-IsFound :
    (h : TokenHash) (gs : List Generation) → count h (hashes gs) ≤ 1 → All (IsFound h gs) gs
unfolding find_gen count
All-IsFound h [] once = tt
All-IsFound h (x ∷ gs) once = (
  λ same. ground (arith, same),
  All-map (IsFound h gs) (IsFound h (x ∷ gs)) gs
      (λ y found same.
        let there = found same in
        let some_count = find_gen_claimed h gs y there in ground (arith, there, some_count))
      (All-IsFound h gs (ground arith)),
)

find_gen-All :
    (h : TokenHash) (X : Generation → Type 0) (gs : List Generation) (g : Generation)
    → All (λ (y : Generation). (y.token_hash == h) ≡ true → X y) gs
    → find_gen h gs ≡ some g
    → X g
unfolding find_gen
find_gen-All h X [] g a found = elim (none-some found) [ ]
find_gen-All h X (x ∷ gs) g a found = elim (Bool-cases (x.token_hash == h)) [
  | inl same ↦ subst X (some-inj x g (ground (arith, found))) (a.0 same)
  | inr apart ↦ find_gen-All h X gs g a.1 (ground (arith, found))
]

-- What survives the reaper was there before.
pub survivors-find_gen :
    (p : SessionPolicy) (now : Timestamp) (c : ℕ) (retired : List (TokenHash × ℕ))
    (gs : List Generation) (h : TokenHash) (g : Generation)
    → count h (hashes gs) ≤ 1
    → find_gen h (survivors p now c retired gs).0 ≡ some g
    → find_gen h gs ≡ some g
survivors-find_gen p now c retired gs h g once found =
    find_gen-All h (λ (y : Generation). find_gen h gs ≡ some y) (survivors p now c retired gs).0 g
      (survivors-All (IsFound h gs) p now c retired gs (All-IsFound h gs once)) found

pub last_counted :
    (h : TokenHash) (older : List Generation) (newest : Generation)
    → (newest.token_hash == h) ≡ true
    → 1 ≤ count h (hashes (older ++ newest ∷ []))
unfolding count
last_counted h [] newest same = ground arith
last_counted h (x ∷ older) newest same = ground (arith, last_counted h older newest same)

abbrev pub closed : Timestamp → Generation → Generation
closed now g = record g { superseded_at = some now }

pub closed-find_gen :
    (now : Timestamp) (h : TokenHash) (older : List Generation) (newest g : Generation)
    → count h (hashes (older ++ newest ∷ [])) ≤ 1
    → find_gen h (older ++ closed now newest ∷ []) ≡ some g
    → (g0 : Generation) × (find_gen h (older ++ newest ∷ []) ≡ some g0)
      × (g ≡ (if newest.token_hash == h then closed now g0 else g0))
unfolding find_gen count
closed-find_gen now h [] newest g once found = elim (Bool-cases (newest.token_hash == h)) [
  | inl same ↦ (newest, ground arith, ground (arith, found))
  | inr apart ↦ let never : none ≡ some g = ground (arith, found) in elim (none-some never) [ ]
]
closed-find_gen now h (x ∷ older) newest g once found = elim (Bool-cases (x.token_hash == h)) [
  | inl same ↦ (x, ground arith, ground (arith, found, last_counted h older newest))
  | inr apart ↦
      let (g0, there, eq) =
        closed-find_gen now h older newest g (ground arith) (ground (arith, found)) in
      (g0, ground (arith, there), eq)
]
