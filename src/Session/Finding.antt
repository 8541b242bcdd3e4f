-- ===== src/Session/Finding.antt =====
-- Finding a generation by its hash, through a rotation.
use session_broker.Base.{
  ℕ, ◌≤◌, ◌<◌, ◌≡◌, refl, ◌∷◌, [], ◌++◌, Bool, List, none, some, ◌==◌, arith, length, count,
  count-append, inl, inr, Bool-cases, Option-cases, max,
}
use session_broker.Clock.{Timestamp, plus_secs}
use session_broker.Session.Types.{
  Sid, TokenHash, SessionPolicy, Generation, SessionEntry, Resolution,
}
use session_broker.Session.Entry.{
  Retirement, retire, classify, session_expiry, find_gen, is_reapable, reap_expired,
  resource_valid_until, all_hashes,
}
use session_broker.Session.Reaping.{hashes, retired_hashes}
use session_broker.Session.Hashes.{claims}
use session_broker.Session.Newest.{cap_older-id}
use session_broker.Session.Minting.{survivors}

-- What an active verdict says of the entry.
pub classify_active :
    (e : SessionEntry) (h : TokenHash) (t : Timestamp) (p : SessionPolicy) (sid : Sid) (n : ℕ)
    (newest : Bool)
    → classify e h t p ≡ Resolution.active sid n newest
    → (session_expiry e t p ≡ none)
      × ((g : Generation) × (find_gen h e.gens ≡ some g)
          × (t < resource_valid_until g p.grace_secs)
          × (n ≡ g.gen_no)
          × (sid ≡ e.sid))
unfolding classify
classify_active e h t p sid n newest v = elim (Option-cases (find_gen h e.gens)) [
  | inl missing ↦ absurd (ground arith)
  | inr (g, found) ↦ (ground arith, (g, found, ground arith, ground arith, ground arith))
]

-- And what it takes.
pub classify_found :
    (e : SessionEntry) (h : TokenHash) (t : Timestamp) (p : SessionPolicy) (g : Generation)
    → session_expiry e t p ≡ none
    → find_gen h e.gens ≡ some g
    → t < resource_valid_until g p.grace_secs
    → classify e h t p ≡ Resolution.active e.sid g.gen_no (g.gen_no == e.current_gen)
unfolding classify
classify_found e h t p g alive found valid = ground arith

pub find_gen_claimed :
    (h : TokenHash) (gs : List Generation) (g : Generation)
    → find_gen h gs ≡ some g
    → 1 ≤ count h (hashes gs)
unfolding find_gen count
find_gen_claimed h [] g found = cc
find_gen_claimed h (x ∷ gs) g found = ground (arith, find_gen_claimed h gs g)

pub found-claims :
    (e : SessionEntry) (h : TokenHash) (g : Generation)
    → find_gen h e.gens ≡ some g
    → 1 ≤ claims e h
unfolding all_hashes
found-claims e h g found = omega (
  arith,
  find_gen_claimed h e.gens g found,
  count-append h (hashes e.gens) (retired_hashes e.retired_gens),
)

pub find_gen-append :
    (h : TokenHash) (gs : List Generation) (m g : Generation)
    → find_gen h gs ≡ some g
    → find_gen h (gs ++ m ∷ []) ≡ some g
unfolding find_gen
find_gen-append h [] m g found = cc
find_gen-append h (x ∷ gs) m g found = ground (arith, find_gen-append h gs m g)

-- The last generation is found by its hash where no other has that hash.
pub find_gen-append_self :
    (gs : List Generation) (m : Generation)
    → count m.token_hash (hashes gs) ≡ 0
    → find_gen m.token_hash (gs ++ m ∷ []) ≡ some m
unfolding find_gen count
find_gen-append_self [] m h = ground arith
find_gen-append_self (x ∷ gs) m h = ground (arith, find_gen-append_self gs m)

-- The reaper keeps what still authenticates.
find_gen-reap_expired :
    (p : SessionPolicy) (now c : ℕ) (h : TokenHash) (gs : List Generation) (g : Generation)
    (r : Retirement)
    → find_gen h gs ≡ some g
    → now < resource_valid_until g p.grace_secs
    → find_gen h (reap_expired p now c gs r).0 ≡ some g
unfolding find_gen reap_expired
find_gen-reap_expired p now c h [] g r found valid = cc
find_gen-reap_expired p now c h (x ∷ gs) g r found valid =
    elim (Bool-cases (is_reapable p now c x)) [
      | inl gone ↦
          rw (gone, reap_expired)
            (find_gen-reap_expired p now c h gs g (retire p x r) (ground arith) valid)
      | inr kept ↦ rw (kept, reap_expired) (ground (arith, find_gen-reap_expired p now c h gs g r))
    ]

length-reap_expired-le :
    (p : SessionPolicy) (now c : ℕ) (gs : List Generation) (r : Retirement)
    → length (reap_expired p now c gs r).0 ≤ length gs
unfolding reap_expired
length-reap_expired-le p now c [] r = omega arith
length-reap_expired-le p now c (x ∷ gs) r =
    ground
      (arith, length-reap_expired-le p now c gs r, length-reap_expired-le p now c gs (retire p x r))

-- So does a rotation, while the cap is not reached.
pub find_gen-survivors :
    (p : SessionPolicy) (now c : ℕ) (h : TokenHash) (retired : List (TokenHash × ℕ))
    (gs : List Generation) (g : Generation)
    → find_gen h gs ≡ some g
    → now < resource_valid_until g p.grace_secs
    → length gs < max p.max_live_gens 1
    → find_gen h (survivors p now c retired gs).0 ≡ some g
unfolding survivors
find_gen-survivors p now c h retired gs g found valid room =
    let r0 : Retirement = record { retired_gens = retired; purged = [] } in
    let kept = reap_expired p now c gs r0 in
    rw (cap_older-id p kept.0 kept.1 (omega (arith, length-reap_expired-le p now c gs r0)))
      (find_gen-reap_expired p now c h gs g r0 found valid)

-- A generation seen before and after the newest one is superseded at `now`.
pub find_gen-superseded :
    (p : SessionPolicy) (now : Timestamp) (h : TokenHash) (older : List Generation)
    (newest g : Generation)
    → newest.superseded_at ≡ none
    → find_gen h (older ++ newest ∷ []) ≡ some g
    → (g' : Generation) × (find_gen h (older ++ record newest { superseded_at = some now } ∷ [])
        ≡ some g')
      × (g'.gen_no ≡ g.gen_no)
      × ((t : Timestamp)
          → t < resource_valid_until g p.grace_secs
          → t < plus_secs now p.grace_secs
          → t < resource_valid_until g' p.grace_secs)
unfolding find_gen resource_valid_until
find_gen-superseded p now h [] newest g open' found =
    (record newest { superseded_at = some now }, ground arith, ground arith, λ t a b. ground arith)
find_gen-superseded p now h (x ∷ older) newest g open' found =
    elim (Bool-cases (x.token_hash == h)) [
      | inl here ↦ (g, ground arith, refl, λ t a b. a)
      | inr later ↦
          let (g', found', same, valid) =
            find_gen-superseded p now h older newest g open' (rw later at found) in
          (g', rw (later, find_gen) found', same, valid)
    ]
