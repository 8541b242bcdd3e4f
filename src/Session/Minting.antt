-- ===== src/Session/Minting.antt =====
-- `SessionEntry::mint`: the shape of its result, and the invariant of an entry.
use session_broker.Base.{ℕ, ◌≡◌, refl, ◌∷◌, [], ◌++◌, false, List, none, some, arith, All}
use session_broker.Clock.{Timestamp}
use session_broker.Session.Types.{
  TokenHash, SessionToken, SessionPolicy, Generation, SessionEntry, IndexEffects,
}
use session_broker.Session.Entry.{
  Retirement, is_reapable, reap_expired, current, mint, reap_generations, minted_gen, next_gen_no,
}
use session_broker.Session.Newest.{
  last_gen-append, supersede_last-append, reap_expired-append, cap_older, cap_live-append,
  cap_older-All,
}
use session_broker.Session.Reaping.{reap_expired-All}

abbrev pub cap_pair : SessionPolicy → List Generation × Retirement → List Generation × Retirement
cap_pair p (gs, r) = cap_older p gs r

-- What is left of the generations before the newest one, and of the retired ones.
unfoldable pub survivors :
    SessionPolicy
    → Timestamp
    → ℕ
    → List (TokenHash × ℕ)
    → List Generation
    → List Generation × Retirement
survivors p now current_gen retired gs =
    cap_pair p (reap_expired p now current_gen gs (record { retired_gens = retired; purged = [] }))

not_reapable :
    (p : SessionPolicy) (now c : ℕ) (g : Generation) → g.gen_no ≡ c → is_reapable p now c g ≡ false
not_reapable p now c g h = ground arith

abbrev pub reaped_to :
    SessionEntry → Generation → List Generation × Retirement → SessionEntry × IndexEffects
reaped_to e newest (kept, r) = (
  record e { gens = kept ++ newest ∷ []; retired_gens = r.retired_gens },
  record { added = none; superseded = none; purged = r.purged },
)

pub reap_generations_lem :
    (p : SessionPolicy) (now : Timestamp) (e : SessionEntry) (older : List Generation)
    (newest : Generation)
    → e.gens ≡ older ++ newest ∷ []
    → newest.gen_no ≡ e.current_gen
    → reap_generations e now p
      ≡ reaped_to e newest (survivors p now e.current_gen e.retired_gens older)
unfolding reap_generations survivors
reap_generations_lem p now e older newest eq same = rw eq (
    rw
      (reap_expired-append p now e.current_gen older newest _
        (not_reapable p now e.current_gen newest same))
      (rw cap_live-append))

abbrev pub minted :
    (SessionToken → TokenHash)
    → SessionToken
    → SessionEntry
    → Timestamp
    → SessionPolicy
    → Generation
    → List Generation × Retirement
    → SessionEntry × IndexEffects
minted hash token e now p newest (kept, r) =
    let m = minted_gen hash token e now p in
    (
      record e {
        gens = kept ++ m ∷ [];
        current_gen = next_gen_no e.current_gen;
        current_token = some token;
        retired_gens = r.retired_gens;
      },
      record { added = some m; superseded = some (newest.token_hash, now); purged = r.purged },
    )

module _ (hash : SessionToken → TokenHash) (token : SessionToken) (p : SessionPolicy)
    (now : Timestamp) (e : SessionEntry) where
  pub mint_lem :
      (older : List Generation) (newest : Generation)
      → e.gens ≡ older ++ newest ∷ []
      → mint hash token e now p
        ≡ minted hash token e now p newest (
            survivors p now
              (next_gen_no e.current_gen)
              e.retired_gens
              (older ++ record newest { superseded_at = some now } ∷ []))
  unfolding mint reap_generations survivors current
  mint_lem older newest eq =
      let m = minted_gen hash token e now p in
      rw (eq, supersede_last-append, last_gen-append)
        (rw
          (reap_expired-append p now (next_gen_no e.current_gen) _ m _
            (not_reapable p now _ m refl))
          (rw cap_live-append))

-- The survivors hold every property that all generations had, and stay within the bounds.
pub survivors-All :
    (P : Generation → Type 0) (p : SessionPolicy) (now : Timestamp) (c : ℕ)
    (retired : List (TokenHash × ℕ)) (gs : List Generation)
    → All P gs
    → All P (survivors p now c retired gs).0
unfolding survivors
survivors-All P p now c retired gs a = cap_older-All P p _ _ (reap_expired-All P p now c gs _ a)
