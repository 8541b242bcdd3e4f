-- ===== src/Session/Entry.antt =====
-- session.rs, `Generation`, `Resolution` and `SessionEntry`: one session on its own.
-- `SHA-256` is the parameter `hash`, and the token that the random source gives is an argument.
use session_broker.Base.{
  ℕ, ◌+◌, ◌%◌, ◌^◌, ◌∷◌, [], ◌++◌, Bool, true, false, not, ◌&&◌, List, map, Option, none, some, min,
  max, ltb, leb, ◌==◌, if◌then◌else◌, length,
}
use session_broker.Clock.{Timestamp, plus_secs}
use session_broker.Session.Types.{
  SessionToken, TokenHash, RevocationPolicy, kill, degrade, SessionPolicy, SessionStatus, alive,
  tombstoned, CustodyStatus, Generation, ExpiredReason, Resolution, SessionMeta, IndexEffects,
  SessionEntry,
}

-- `none` stands for a panic: `expect` on a session with no generation.
abbrev pub Checked : Type 0 → Type 0
Checked A = Option A

valid_until : Timestamp → ℕ → Option Timestamp → Timestamp
valid_until until grace_secs none = until
valid_until until grace_secs (some at) = min until (plus_secs at grace_secs)

unfoldable pub resource_valid_until : Generation → ℕ → Timestamp
unfolding valid_until
resource_valid_until g grace_secs = valid_until g.active_until grace_secs g.superseded_at

unfoldable pub authenticates : Resolution → Bool
authenticates (Resolution.active sid gen_no newest) = true
authenticates _ = false

abbrev pub last_gen : List Generation → Checked Generation
last_gen [] = none
last_gen (g ∷ []) = some g
last_gen (g ∷ g' ∷ gs) = last_gen (g' ∷ gs)

unfoldable pub current : SessionEntry → Checked Generation
current e = last_gen e.gens

abbrev pub is_tombstoned : SessionStatus → Bool
is_tombstoned tombstoned = true
is_tombstoned alive = false

abbrev pub is_dead : CustodyStatus → Bool
is_dead CustodyStatus.dead = true
is_dead _ = false

abbrev pub is_kill : RevocationPolicy → Bool
is_kill kill = true
is_kill degrade = false

unfoldable pub session_expiry : SessionEntry → Timestamp → SessionPolicy → Option ExpiredReason
session_expiry e now policy =
    if is_tombstoned e.status
    then some ExpiredReason.logged_out
    else if leb e.absolute_exp now
    then some ExpiredReason.absolute
    else if leb e.idle_exp now
    then some ExpiredReason.idle
    else if is_dead e.custody_status && is_kill policy.on_upstream_revoked
    then some ExpiredReason.upstream_revoked
    else none

-- `gens.iter().find(..)` and `retired.iter().find(..)`.
unfoldable pub find_gen : TokenHash → List Generation → Option Generation
find_gen h [] = none
find_gen h (g ∷ gs) = if g.token_hash == h then some g else find_gen h gs

unfoldable pub find_retired : TokenHash → List (TokenHash × ℕ) → Option ℕ
find_retired h [] = none
find_retired h ((r, n) ∷ rs) = if r == h then some n else find_retired h rs

classify_gen : SessionEntry → Timestamp → SessionPolicy → Generation → Resolution
classify_gen e now policy g =
    let newest = g.gen_no == e.current_gen in
    if ltb now (resource_valid_until g policy.grace_secs)
    then Resolution.active e.sid g.gen_no newest
    else if newest
    then Resolution.stale_refreshable e.sid g.gen_no
    else Resolution.retired e.sid g.gen_no

abbrev retired_resolution : SessionEntry → Option ℕ → Resolution
retired_resolution e none = Resolution.unknown
retired_resolution e (some n) = Resolution.retired e.sid n

classify_alive : SessionEntry → TokenHash → Timestamp → SessionPolicy → Resolution
unfolding classify_gen
classify_alive e h now policy = elim (find_gen h e.gens) [
  | some g ↦ classify_gen e now policy g
  | none ↦ retired_resolution e (find_retired h e.retired_gens)
]

unfoldable pub classify : SessionEntry → TokenHash → Timestamp → SessionPolicy → Resolution
unfolding classify_alive
classify e h now policy = elim (session_expiry e now policy) [
  | some reason ↦ Resolution.hard_expired e.sid reason
  | none ↦ classify_alive e h now policy
]

unfoldable pub meta : SessionEntry → Checked SessionMeta
meta e = elim (current e) [
  | none ↦ none
  | some g ↦ some (record {
    v = 1;
    sub = e.sub;
    sid = e.sid;
    gen = e.current_gen;
    active_until = g.active_until;
    refresh_until = e.idle_exp;
    absolute_until = e.absolute_exp;
    custody = e.custody_status;
  })
]

unfoldable pub slide : SessionEntry → Timestamp → SessionPolicy → SessionEntry
slide e now policy = record e { idle_exp = min (plus_secs now policy.idle_ttl_secs) e.absolute_exp }

-- What `retire` writes: the field `retired`, and `purged` of the effects.
pub record Retirement : Type 0 where
  pub retired_gens : List (TokenHash × ℕ)
  pub purged : List TokenHash

-- The `while` of `retire`: the oldest are forgotten until the rest fits.
unfoldable pub trim : ℕ → List (TokenHash × ℕ) → List TokenHash → Retirement
trim limit [] purged = record { retired_gens = []; purged = purged }
trim limit ((h, n) ∷ rest) purged =
    let next = trim limit rest (purged ++ h ∷ []) in
    if ltb limit (length ((h, n) ∷ rest))
    then next
    else record { retired_gens = (h, n) ∷ rest; purged = purged }

unfoldable pub retire : SessionPolicy → Generation → Retirement → Retirement
retire policy g r =
    trim policy.retired_memory (r.retired_gens ++ (g.token_hash, g.gen_no) ∷ []) r.purged

abbrev pub is_reapable : SessionPolicy → Timestamp → ℕ → Generation → Bool
is_reapable policy now current_gen g =
    not (g.gen_no == current_gen) && leb (resource_valid_until g policy.grace_secs) now

abbrev keep : Generation → List Generation × Retirement → List Generation × Retirement
keep g (kept, r) = (g ∷ kept, r)

-- The `for` of `reap_generations`.
unfoldable pub reap_expired :
    SessionPolicy → Timestamp → ℕ → List Generation → Retirement → List Generation × Retirement
reap_expired policy now current_gen [] r = ([], r)
reap_expired policy now current_gen (g ∷ gs) r = elim (is_reapable policy now current_gen g) [
  | true ↦ reap_expired policy now current_gen gs (retire policy g r)
  | false ↦ keep g (reap_expired policy now current_gen gs r)
]

-- Its `while`: the hard cap, oldest first.
unfoldable pub cap_live :
    SessionPolicy → List Generation → Retirement → List Generation × Retirement
cap_live policy [] r = ([], r)
cap_live policy (g ∷ gs) r = elim (ltb (max policy.max_live_gens 1) (length (g ∷ gs))) [
  | true ↦ cap_live policy gs (retire policy g r)
  | false ↦ (g ∷ gs, r)
]

abbrev capped : SessionPolicy → List Generation × Retirement → List Generation × Retirement
capped policy (kept, r) = cap_live policy kept r

abbrev reaped : SessionEntry → List Generation × Retirement → SessionEntry × IndexEffects
reaped e (kept, r) = (
  record e { gens = kept; retired_gens = r.retired_gens },
  record { added = none; superseded = none; purged = r.purged },
)

unfoldable pub reap_generations :
    SessionEntry → Timestamp → SessionPolicy → SessionEntry × IndexEffects
reap_generations e now policy = reaped e (
    capped policy (
      reap_expired policy now e.current_gen e.gens
        (record { retired_gens = e.retired_gens; purged = [] })))

-- `gens.last_mut()`: the last generation is superseded, if there is one.
unfoldable pub supersede_last : Timestamp → List Generation → List Generation
supersede_last now [] = []
supersede_last now (g ∷ []) = record g { superseded_at = some now } ∷ []
supersede_last now (g ∷ g' ∷ gs) = g ∷ supersede_last now (g' ∷ gs)

abbrev superseded_by : Timestamp → Checked Generation → Option (TokenHash × Timestamp)
superseded_by now none = none
superseded_by now (some g) = some (g.token_hash, now)

-- `current_gen += 1` on a `u32`.
abbrev pub next_gen_no : ℕ → ℕ
next_gen_no n = (n + 1) % 2 ^ 32

abbrev pub minted_gen :
    (SessionToken → TokenHash)
    → SessionToken
    → SessionEntry
    → Timestamp
    → SessionPolicy
    → Generation
minted_gen hash token e now policy = record {
  gen_no = next_gen_no e.current_gen;
  token_hash = hash token;
  created_at = now;
  active_until = plus_secs now policy.gen_ttl_secs;
  superseded_at = none;
}

-- The entry of `mint` before it reaps.
abbrev pub with_minted :
    (SessionToken → TokenHash)
    → SessionToken
    → SessionEntry
    → Timestamp
    → SessionPolicy
    → SessionEntry
with_minted hash token e now policy = record e {
  current_gen = next_gen_no e.current_gen;
  gens = supersede_last now e.gens ++ minted_gen hash token e now policy ∷ [];
  current_token = some token;
}

unfoldable pub mint :
    (SessionToken → TokenHash)
    → SessionToken
    → SessionEntry
    → Timestamp
    → SessionPolicy
    → SessionEntry × IndexEffects
mint hash token e now policy =
    let (e', effects) = reap_generations (with_minted hash token e now policy) now policy in
    (
      e',
      record effects {
        added = some (minted_gen hash token e now policy);
        superseded = superseded_by now (current e);
      },
    )

unfoldable pub all_hashes : SessionEntry → List TokenHash
all_hashes e = map (λ g. g.token_hash) e.gens ++ map (λ r. r.0) e.retired_gens
