-- ===== src/Session/Issued.antt =====
-- session.rs, `SessionMap::refresh`: the cookie that it sets, as `resolve` sees it.
use mathlib.Core.List.{map-append}
use mathlib.Core.Path.{subst}
use session_broker.Base.{
  ℕ, ◌≤◌, ◌<◌, ◌≡◌, refl, ap, ◌∷◌, [], ◌++◌, true, List, Option, none, some, ==_refl, arith, count,
  count-append, get, ◌^◌,
}
use session_broker.Clock.{Timestamp, plus_secs, since, epoch, last_instant}
use session_broker.Session.Types.{
  Sid, TokenHash, SessionToken, SessionPolicy, Generation, SessionEntry, SessionMap, Resolution,
  IssuedCookies,
}
use session_broker.Session.Entry.{
  session_expiry, find_gen, resource_valid_until, slide, minted_gen, next_gen_no, current,
  all_hashes,
}
use session_broker.Session.Map.{resolve}
use session_broker.Session.Refresh.{refresh, issued, rotate, coalesced}
use session_broker.Session.Minting.{mint_lem, survivors}
use session_broker.Session.Newest.{last_gen-append}
use session_broker.Session.Sound.{IsSound, current-newest}
use session_broker.Session.Reaping.{hashes, retired_hashes}
use session_broker.Session.Hashes.{claims}
use session_broker.Session.Consistent.{At, IsConsistent}
use session_broker.Session.Refreshing.{
  HasRoom, rotation, refreshed, rotation-IsSound, refreshed-IsConsistent, refreshed_at,
  refreshed_policy, resolve_found,
}
use session_broker.Session.Finding.{classify_found, found-claims, find_gen-append_self}
use session_broker.Session.Grace.{refresh_issued, rotate_alive}

-- The plaintext in memory, if there is any, is that of the newest generation, which was given
-- the policy's lifetime.
abbrev pub IsHeld : (SessionToken → TokenHash) → SessionPolicy → SessionEntry → Type 0
IsHeld hash p e =
    (token : SessionToken) (g : Generation)
    → e.current_token ≡ some token
    → current e ≡ some g
    → (hash token ≡ g.token_hash) × (g.active_until ≡ plus_secs g.created_at p.gen_ttl_secs)

-- A lifetime that is positive and does not wrap when it is cast to `i64`.
abbrev pub IsLifetime : ℕ → Type 0
IsLifetime secs = (0 < secs) × (secs < 2 ^ 63)

-- An instant of the system clock, which never shows one before 1970.
abbrev pub IsInstant : Timestamp → Type 0
IsInstant t = (epoch ≤ t) × (t < last_instant)

pub lt-plus_secs : (t secs : ℕ) → t < last_instant → IsLifetime secs → t < plus_secs t secs
unfolding plus_secs
lt-plus_secs t secs h life = ground arith

lt-plus_secs-since :
    (created now secs window : ℕ)
    → IsInstant created
    → IsInstant now
    → created ≤ now
    → IsLifetime secs
    → since now created < window
    → window ≤ secs
    → now < plus_secs created secs
unfolding plus_secs since
lt-plus_secs-since created now secs window a b c life w l = ground arith

count_self : (h : ℕ) → count h (h ∷ []) ≡ 1
unfolding count
count_self h = ground arith

find_newest :
    (p : SessionPolicy) (e : SessionEntry) (s : IsSound p e)
    → claims e s.newest.token_hash ≤ 1
    → find_gen s.newest.token_hash e.gens ≡ some s.newest
unfolding all_hashes count
find_newest p e s once = rw s.gens_eq (
    find_gen-append_self s.older s.newest (
      omega (
        arith,
        count-append h (hashes e.gens) (retired_hashes e.retired_gens),
        ap (λ (gs : List Generation). count h (hashes gs)) s.gens_eq,
        ap (count h) (map-append (λ (g : Generation). g.token_hash) s.older (s.newest ∷ [])),
        count-append h (hashes s.older) (h ∷ []),
        count_self h,
      )))
  where
    h : TokenHash
    h = s.newest.token_hash

-- The current generation is found by its hash, carries the current number and is not superseded.
current_facts :
    (p : SessionPolicy) (e : SessionEntry) (s : IsSound p e) (g : Generation)
    → current e ≡ some g
    → ((h : TokenHash) → claims e h ≤ 1)
    → (find_gen g.token_hash e.gens ≡ some g)
      × (g.gen_no ≡ e.current_gen)
      × (g.superseded_at ≡ none)
current_facts p e s g cur once =
    let is_g : s.newest ≡ g = cc (current-newest p e s) in
    subst
      (λ (x : Generation).
        (find_gen x.token_hash e.gens ≡ some x)
        × (x.gen_no ≡ e.current_gen)
        × (x.superseded_at ≡ none))
      is_g (find_newest p e s (once s.newest.token_hash), s.newest_no, s.newest_open)

module _ (hash : SessionToken → TokenHash) (fresh : SessionToken) (p : SessionPolicy)
    (now : Timestamp) (e : SessionEntry) where
  -- The newest generation after a rotation is the one whose token is handed out.
  rotate_newest :
      (s : IsSound p e)
      → IsHeld hash p e
      → IsInstant s.newest.created_at
      → IsInstant now
      → s.newest.created_at ≤ now
      → IsLifetime p.gen_ttl_secs
      → p.coalesce_secs ≤ p.gen_ttl_secs
      → (c : Option SessionToken) → coalesced e s.newest now p ≡ c
      → let r = rotate hash fresh e now p c in
        (g : Generation) × (current (slide r.entry now p) ≡ some g)
        × (hash r.token ≡ g.token_hash)
        × (now < g.active_until)
  unfolding rotate slide current coalesced
  rotate_newest s held born at order ttl window (some token) eq =
      let own : e.current_token ≡ some token = ground arith in
      let near : since now s.newest.created_at < p.coalesce_secs = ground arith in
      let (same, until) = held token s.newest own (current-newest p e s) in
      (
        s.newest,
        current-newest p e s,
        same,
        rw until (
            lt-plus_secs-since s.newest.created_at now p.gen_ttl_secs p.coalesce_secs born at order
              ttl near window),
      )
  rotate_newest s held born at order ttl window none eq =
      let m = minted_gen hash fresh e now p in
      (
        m,
        rw (mint_lem hash fresh p now e s.older s.newest s.gens_eq) (
            last_gen-append
              (survivors p now (next_gen_no e.current_gen) e.retired_gens
                (s.older ++ record (s.newest) { superseded_at = some now } ∷ [])).0
              m),
        refl,
        lt-plus_secs now p.gen_ttl_secs at.1 ttl,
      )

module _ (hash : SessionToken → TokenHash) (fresh : SessionToken) (m : SessionMap)
    (now : Timestamp) where
  -- After a refresh that answers, the cookie handed out authenticates at once, as the newest
  -- generation. The conditions: a consistent map and a session that has not expired, with a
  -- generation number left in `u32`; the token that it holds is the one of its newest generation,
  -- whose lifetime is the policy's and whose birth is no later than `now`; a fresh token whose
  -- hash the index does not hold; a sane clock; lifetimes that are positive and do not wrap; and
  -- a coalescing window no longer than a generation's lifetime.
  pub refresh-resolve_issued :
      (sid : Sid) (e : SessionEntry) (h : TokenHash) {m' : SessionMap} {cookies : IssuedCookies}
      → (c : IsConsistent m) (at : At m sid e) → HasRoom e
      → IsHeld hash m.policy e
      → get (hash fresh) m.index ≡ none
      → get h m.index ≡ some sid
      → refresh hash fresh m h now ≡ issued m' cookies
      → session_expiry e now m.policy ≡ none
      → IsInstant now
      → IsInstant (c.sound sid e at).newest.created_at
      → (c.sound sid e at).newest.created_at ≤ now
      → IsLifetime m.policy.gen_ttl_secs
      → IsLifetime m.policy.idle_ttl_secs
      → m.policy.coalesce_secs ≤ m.policy.gen_ttl_secs
      → resolve m' (hash cookies.token) now ≡ Resolution.active sid cookies.meta.gen true
  unfolding resource_valid_until
  refresh-resolve_issued sid e h c at room held unused q given alive sane born order ttl idle
        window =
      let s = c.sound sid e at in
      let token = coalesced e s.newest now m.policy in
      let r = rotation hash fresh m now e s.newest in
      let e' = slide r.entry now m.policy in
      let m' = refreshed m sid now r in
      let s' = rotation-IsSound hash fresh m now e s.newest s room in
      let (g, cur, same, valid) =
        rotate_newest hash fresh m.policy now e s held born sane order ttl window token refl in
      let alive' =
        rotate_alive hash fresh m.policy now e token now alive
          (lt-plus_secs now m.policy.idle_ttl_secs sane.1 idle) in
      let c' = refreshed-IsConsistent hash fresh m now sid e s.newest c at room unused in
      let at' : At m' sid e' = refreshed_at hash fresh m now sid e s.newest c at room unused in
      let (found, num, unclosed) =
        current_facts m.policy e' s' g cur (λ x. c'.distinct sid e' x at') in
      let q' : get (hash r.token) m'.index ≡ some sid =
        c'.owned sid e' (hash r.token) at' (rw same (found-claims e' g.token_hash g found)) in
      let (same_map, same_cookies) = refresh_issued hash fresh m now sid e h c at room q given in
      rw (same_map, same_cookies)
        (rw
          (
            resolve_found hash fresh m' now (hash r.token) sid e' q' at',
            refreshed_policy m sid now r,
            classify_found e' (hash r.token) now m.policy g alive' (rw same found)
                (rw unclosed valid),
            num,
            c'.named sid e' at',
          )
          (ap (Resolution.active sid e'.current_gen) (==_refl e'.current_gen)))
