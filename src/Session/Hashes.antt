-- ===== src/Session/Hashes.antt =====
-- The hashes that a session claims, through minting and reaping, and through `apply`.
use mathlib.Core.List.{map-append}
use session_broker.Base.{
  ℕ, ◌+◌, ◌≡◌, refl, ap, ◌∷◌, [], List, Option, none, some, leb, ◌==◌, arith, count, count-append,
  if◌then◌else◌, get, insert, remove, get-insert, get-remove,
}
use session_broker.Clock.{Timestamp}
use session_broker.Session.Types.{
  Sid, TokenHash, SessionToken, SessionPolicy, Generation, SessionEntry, IndexEffects, SessionMap,
  Command, delete_generation, insert_generation, supersede_generation,
}
use session_broker.Session.Entry.{
  supersede_last, mint, reap_generations, all_hashes, with_minted, minted_gen, reap_expired,
}
use session_broker.Session.Map.{persist, apply, apply_added, apply_superseded, apply_purged}
use session_broker.Session.Reaping.{hashes, retired_hashes, reap_expired-count, cap_live-count}

-- How often the session claims the hash, as a generation or as a retired one.
abbrev pub claims : SessionEntry → TokenHash → ℕ
claims e h = count h (all_hashes e)

claims_lem :
    (e : SessionEntry) (h : TokenHash)
    → claims e h ≡ count h (hashes e.gens) + count h (retired_hashes e.retired_gens)
unfolding all_hashes
claims_lem e h = count-append h (hashes e.gens) (retired_hashes e.retired_gens)

hashes-supersede_last :
    (now : Timestamp) (gs : List Generation) → hashes (supersede_last now gs) ≡ hashes gs
unfolding supersede_last
hashes-supersede_last now [] = refl
hashes-supersede_last now (g ∷ []) = refl
hashes-supersede_last now (g ∷ g' ∷ gs) =
    ap (◌∷◌ g.token_hash) (hashes-supersede_last now (g' ∷ gs))

-- Reaping purges a hash or leaves it claimed.
pub reap_generations-claims :
    (p : SessionPolicy) (now : Timestamp) (e : SessionEntry) (h : TokenHash)
    → let (e', effects) = reap_generations e now p in
      claims e' h + count h effects.purged ≡ claims e h
unfolding reap_generations count
reap_generations-claims p now e h =
    let r0 =
      reap_expired p now e.current_gen e.gens
        (record { retired_gens = e.retired_gens; purged = [] }) in
    omega (
      arith,
      claims_lem e h,
      claims_lem (reap_generations e now p).0 h,
      reap_expired-count p now e.current_gen h e.gens
          (record { retired_gens = e.retired_gens; purged = [] }),
      cap_live-count p h r0.0 r0.1,
    )

-- Minting also adds the new hash.
pub mint-claims :
    (hash : SessionToken → TokenHash) (token : SessionToken) (e : SessionEntry) (now : Timestamp)
    (p : SessionPolicy) (h : TokenHash)
    → let (e', effects) = mint hash token e now p in
      claims e' h + count h effects.purged ≡ claims e h + count h (hash token ∷ [])
unfolding mint
mint-claims hash token e now p h =
    let e1 = with_minted hash token e now p in
    omega (
      arith,
      reap_generations-claims p now e1 h,
      claims_lem e1 h,
      claims_lem e h,
      ap (count h) (
          map-append (λ (g : Generation). g.token_hash) (supersede_last now e.gens)
            (minted_gen hash token e now p ∷ [])),
      count-append h (hashes (supersede_last now e.gens)) (hash token ∷ []),
      ap (count h) (hashes-supersede_last now e.gens),
    )

-- What a queued command leaves alone.
pub persist_rest :
    (cmd : Command) (m : SessionMap)
    → ((persist cmd m).index ≡ m.index)
      × ((persist cmd m).sessions ≡ m.sessions)
      × ((persist cmd m).policy ≡ m.policy)
      × ((persist cmd m).observer ≡ m.observer)
unfolding persist
persist_rest cmd m = ground arith

pub apply_purged_index :
    (hs : List TokenHash) (m : SessionMap) (h : TokenHash)
    → get h (apply_purged hs m).index ≡ (if leb 1 (count h hs) then none else get h m.index)
unfolding apply_purged count
apply_purged_index [] m h = refl
apply_purged_index (k ∷ hs) m h =
    let m1 = record m { index = remove k m.index } in
    let m2 = persist (delete_generation k) m1 in
    let step : get h m2.index ≡ (if k == h then none else get h m.index) =
      rw ((persist_rest (delete_generation k) m1).0) (get-remove k h m.index) in
    ground (arith, apply_purged_index hs m2 h, step)

pub apply_purged_rest :
    (hs : List TokenHash) (m : SessionMap)
    → ((apply_purged hs m).sessions ≡ m.sessions) × ((apply_purged hs m).policy ≡ m.policy)
unfolding apply_purged
apply_purged_rest [] m = (refl, refl)
apply_purged_rest (k ∷ hs) m =
    let m1 = record m { index = remove k m.index } in
    ground (
      arith,
      persist_rest (delete_generation k) m1,
      apply_purged_rest hs (persist (delete_generation k) m1),
    )

-- How the added generation changes the index.
abbrev pub added_index : Sid → Option Generation → TokenHash → Option Sid → Option Sid
added_index sid none h old = old
added_index sid (some g) h old = if g.token_hash == h then some sid else old

apply_added_index :
    (sid : Sid) (added : Option Generation) (m : SessionMap) (h : TokenHash)
    → get h (apply_added sid added m).index ≡ added_index sid added h (get h m.index)
unfolding apply_added
apply_added_index sid none m h = refl
apply_added_index sid (some g) m h =
    rw ((persist_rest _ (record m { index = insert g.token_hash sid m.index })).0)
      (get-insert g.token_hash h sid m.index)

apply_added_rest :
    (sid : Sid) (added : Option Generation) (m : SessionMap)
    → ((apply_added sid added m).sessions ≡ m.sessions)
      × ((apply_added sid added m).policy ≡ m.policy)
unfolding apply_added
apply_added_rest sid none m = (refl, refl)
apply_added_rest sid (some g) m =
    let r =
      persist_rest (insert_generation sid g.gen_no g.token_hash g.created_at g.active_until)
        (record m { index = insert g.token_hash sid m.index }) in
    (r.1, r.2)

apply_superseded_rest :
    (s : Option (TokenHash × Timestamp)) (m : SessionMap)
    → ((apply_superseded s m).index ≡ m.index)
      × ((apply_superseded s m).sessions ≡ m.sessions)
      × ((apply_superseded s m).policy ≡ m.policy)
unfolding apply_superseded
apply_superseded_rest none m = (refl, refl, refl)
apply_superseded_rest (some (h, at)) m =
    let r = persist_rest (supersede_generation h at) m in (r.0, r.1, r.2)

-- `apply` changes the index by what was purged and added, and neither the sessions nor the policy.
pub apply_index :
    (eff : IndexEffects) (sid : Sid) (m : SessionMap) (h : TokenHash)
    → get h (apply eff sid m).index
      ≡ (if leb 1 (count h eff.purged) then none else added_index sid eff.added h (get h m.index))
unfolding apply
apply_index eff sid m h = rw (
  apply_purged_index eff.purged _ h,
  (apply_superseded_rest eff.superseded (apply_added sid eff.added m)).0,
  apply_added_index sid eff.added m h,
)

pub apply_rest :
    (eff : IndexEffects) (sid : Sid) (m : SessionMap)
    → ((apply eff sid m).sessions ≡ m.sessions) × ((apply eff sid m).policy ≡ m.policy)
unfolding apply
apply_rest eff sid m =
    let a = apply_added sid eff.added m in
    let s = apply_superseded eff.superseded a in
    ground (
      arith,
      apply_purged_rest eff.purged s,
      apply_superseded_rest eff.superseded a,
      apply_added_rest sid eff.added m,
    )
