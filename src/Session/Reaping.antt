-- ===== src/Session/Reaping.antt =====
-- What `trim`, `retire`, `reap_expired` and `cap_live` keep, and where the hashes go.
use mathlib.Core.List.{map-append}
use session_broker.Base.{
  ℕ, ◌+◌, ◌≤◌, ◌≡◌, refl, ap, ◌∷◌, [], ◌++◌, List, map, max, arith, length, All, count,
  count-append, Bool-cases, inl, inr,
}
use session_broker.Session.Types.{TokenHash, SessionPolicy, Generation}
use session_broker.Session.Entry.{Retirement, trim, retire, is_reapable, reap_expired, cap_live}

abbrev pub hashes : List Generation → List TokenHash
hashes = map (λ g. g.token_hash)

abbrev pub retired_hashes : List (TokenHash × ℕ) → List TokenHash
retired_hashes = map (λ r. r.0)

-- How often a hash stands among the retired and the purged ones.
abbrev pub retired_count : TokenHash → Retirement → ℕ
retired_count h r = count h (retired_hashes r.retired_gens) + count h r.purged

trim-count :
    (h limit : ℕ) (l : List (TokenHash × ℕ)) (purged : List TokenHash)
    → retired_count h (trim limit l purged) ≡ count h (retired_hashes l) + count h purged
unfolding trim count
trim-count h limit [] purged = refl
trim-count h limit ((k, n) ∷ rest) purged =
    ground (arith, trim-count h limit rest (purged ++ k ∷ []), count-append h purged (k ∷ []))

length-trim :
    (limit : ℕ) (l : List (TokenHash × ℕ)) (purged : List TokenHash)
    → length (trim limit l purged).retired_gens ≤ limit
unfolding trim
length-trim limit [] purged = omega arith
length-trim limit ((k, n) ∷ rest) purged = ground (arith, length-trim limit rest (purged ++ k ∷ []))

retire-count :
    (p : SessionPolicy) (h : ℕ) (g : Generation) (r : Retirement)
    → retired_count h (retire p g r) ≡ count h (g.token_hash ∷ []) + retired_count h r
unfolding retire
retire-count p h g r = omega (
  arith,
  trim-count h p.retired_memory (r.retired_gens ++ (g.token_hash, g.gen_no) ∷ []) r.purged,
  ap (count h)
      (map-append (λ (x : TokenHash × ℕ). x.0) r.retired_gens ((g.token_hash, g.gen_no) ∷ [])),
  count-append h (retired_hashes r.retired_gens) (g.token_hash ∷ []),
)

length-retire :
    (p : SessionPolicy) (g : Generation) (r : Retirement)
    → length (retire p g r).retired_gens ≤ p.retired_memory
unfolding retire
length-retire p g r = length-trim p.retired_memory _ r.purged

-- No hash is lost or made up: it is kept, remembered as retired, or purged.
pub reap_expired-count :
    (p : SessionPolicy) (now c h : ℕ) (gs : List Generation) (r : Retirement)
    → let (kept, r') = reap_expired p now c gs r in
      count h (hashes kept) + retired_count h r' ≡ count h (hashes gs) + retired_count h r
unfolding reap_expired count
reap_expired-count p now c h [] r = refl
reap_expired-count p now c h (g ∷ gs) r = elim (Bool-cases (is_reapable p now c g)) [
  | inl e ↦
      rw (e, reap_expired)
        (ground (arith, reap_expired-count p now c h gs (retire p g r), retire-count p h g r))
  | inr e ↦ rw (e, reap_expired) (ground (arith, reap_expired-count p now c h gs r))
]

pub cap_live-count :
    (p : SessionPolicy) (h : ℕ) (gs : List Generation) (r : Retirement)
    → let (kept, r') = cap_live p gs r in
      count h (hashes kept) + retired_count h r' ≡ count h (hashes gs) + retired_count h r
unfolding cap_live count
cap_live-count p h [] r = refl
cap_live-count p h (g ∷ gs) r =
    ground (arith, cap_live-count p h gs (retire p g r), retire-count p h g r)

pub reap_expired_retired :
    (p : SessionPolicy) (now c : ℕ) (gs : List Generation) (r : Retirement)
    → length r.retired_gens ≤ p.retired_memory
    → length (reap_expired p now c gs r).1.retired_gens ≤ p.retired_memory
unfolding reap_expired
reap_expired_retired p now c [] r h = h
reap_expired_retired p now c (g ∷ gs) r h = elim (Bool-cases (is_reapable p now c g)) [
  | inl e ↦
      rw (e, reap_expired) (reap_expired_retired p now c gs (retire p g r) (length-retire p g r))
  | inr e ↦ rw (e, reap_expired) (reap_expired_retired p now c gs r h)
]

pub cap_live_retired :
    (p : SessionPolicy) (gs : List Generation) (r : Retirement)
    → length r.retired_gens ≤ p.retired_memory
    → length (cap_live p gs r).1.retired_gens ≤ p.retired_memory
unfolding cap_live
cap_live_retired p [] r h = h
cap_live_retired p (g ∷ gs) r h =
    ground (arith, cap_live_retired p gs (retire p g r), length-retire p g r)

pub length-cap_live :
    (p : SessionPolicy) (gs : List Generation) (r : Retirement)
    → length (cap_live p gs r).0 ≤ max p.max_live_gens 1
unfolding cap_live
length-cap_live p [] r = omega arith
length-cap_live p (g ∷ gs) r = ground (arith, length-cap_live p gs (retire p g r))

pub reap_expired-All :
    (P : Generation → Type 0) (p : SessionPolicy) (now c : ℕ) (gs : List Generation)
    (r : Retirement)
    → All P gs
    → All P (reap_expired p now c gs r).0
unfolding reap_expired
reap_expired-All P p now c [] r a = a
reap_expired-All P p now c (g ∷ gs) r a = elim (Bool-cases (is_reapable p now c g)) [
  | inl e ↦ rw (e, reap_expired) (reap_expired-All P p now c gs (retire p g r) a.1)
  | inr e ↦ rw (e, reap_expired) (a.0, reap_expired-All P p now c gs r a.1)
]
