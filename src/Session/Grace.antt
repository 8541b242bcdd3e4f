-- ===== src/Session/Grace.antt =====
-- Non-invalidating rotation: what a refresh leaves of the cookies that are already out.
use session_broker.Base.{
  ℕ, ◌≤◌, ◌<◌, ◌≡◌, refl, ap, sym, ◌∙◌, ◌∷◌, [], ◌++◌, Bool, Option, none, some, ◌==◌, arith,
  length, length-append, get, inl, inr, Option-cases, max,
}
use session_broker.Clock.{Timestamp, plus_secs}
use session_broker.Session.Types.{
  Sid, TokenHash, SessionToken, SessionPolicy, Generation, SessionEntry, SessionMap, Resolution,
  IssuedCookies,
}
use session_broker.Session.Entry.{
  classify, session_expiry, find_gen, resource_valid_until, mint, slide, next_gen_no,
  reap_generations,
}
use session_broker.Session.Map.{resolve}
use session_broker.Session.Refresh.{refresh_entry, refresh, issued, rotate, coalesced, denial}
use session_broker.Session.Minting.{mint_lem}
use session_broker.Session.Sound.{IsSound}
use session_broker.Session.Consistent.{At, IsConsistent}
use session_broker.Session.Refreshing.{
  HasRoom, rotation, refreshed, rotation-IsStep, refreshed-IsConsistent, refreshed_at,
  refreshed_policy, refresh_live_lem, refresh_entry_lem, refresh_found, resolve_found, cookies_of,
}
use session_broker.Session.Finding.{
  classify_active, classify_found, found-claims, find_gen-append, find_gen-survivors,
  find_gen-superseded,
}

-- A generation of the entry that stays valid until `t` is found again, with its number.
abbrev pub Survives : SessionPolicy → SessionEntry → TokenHash → Timestamp → ℕ → Type 0
Survives p e h t n =
    (g : Generation) × (find_gen h e.gens ≡ some g)
    × (g.gen_no ≡ n)
    × (t < resource_valid_until g p.grace_secs)

module _ (hash : SessionToken → TokenHash) (fresh : SessionToken) (p : SessionPolicy)
    (now : Timestamp) (e : SessionEntry) where
  mint-Survives :
      (s : IsSound p e) (h : TokenHash) (g : Generation) (t : Timestamp)
      → length e.gens < max p.max_live_gens 1
      → find_gen h e.gens ≡ some g
      → now ≤ t
      → t < resource_valid_until g p.grace_secs
      → t < plus_secs now p.grace_secs
      → Survives p (mint hash fresh e now p).0 h t g.gen_no
  mint-Survives s h g t room found later valid grace =
      let newest' : Generation = record (s.newest) { superseded_at = some now } in
      let older = s.older ++ newest' ∷ [] in
      let (g', found', same, still) =
        find_gen-superseded p now h s.older s.newest g s.newest_open (rw s.gens_eq at found) in
      let valid' = still t valid grace in
      let size : length older < max p.max_live_gens 1 = omega (
        arith,
        ap length s.gens_eq,
        length-append s.older (s.newest ∷ []),
        length-append s.older (newest' ∷ []),
      ) in
      (
        g',
        rw (mint_lem hash fresh p now e s.older s.newest s.gens_eq) (
            find_gen-append h _ _ g' (
              find_gen-survivors p now (next_gen_no e.current_gen) h e.retired_gens older g' found'
                (omega arith) size)),
        same,
        valid',
      )

  -- A coalesced refresh changes no generation, and a rotation supersedes the newest one.
  rotate-Survives :
      (s : IsSound p e) (c : Option SessionToken) (h : TokenHash) (g : Generation) (t : Timestamp)
      → length e.gens < max p.max_live_gens 1
      → find_gen h e.gens ≡ some g
      → now ≤ t
      → t < resource_valid_until g p.grace_secs
      → t < plus_secs now p.grace_secs
      → Survives p (slide (rotate hash fresh e now p c).entry now p) h t g.gen_no
  unfolding rotate slide
  rotate-Survives s (some token) h g t room found later valid grace = (g, found, refl, valid)
  rotate-Survives s none h g t room found later valid grace =
      mint-Survives s h g t room found later valid grace

  -- Sliding keeps a session alive at `t`, if the idle lifetime reaches that far.
  pub rotate_alive :
      (c : Option SessionToken) (t : Timestamp)
      → session_expiry e t p ≡ none
      → t < plus_secs now p.idle_ttl_secs
      → session_expiry (slide (rotate hash fresh e now p c).entry now p) t p ≡ none
  unfolding session_expiry rotate slide mint reap_generations
  rotate_alive (some token) t alive idle = ground arith
  rotate_alive none t alive idle = ground arith

module _ (hash : SessionToken → TokenHash) (fresh : SessionToken) (m : SessionMap)
    (now : Timestamp) where
  -- The entry behind an active verdict of `refreshed`.
  pub refreshed_active :
      (sid : Sid) (e : SessionEntry) (c : IsConsistent m) (at : At m sid e) (room : HasRoom e)
      → get (hash fresh) m.index ≡ none
      → (h : TokenHash) (t : Timestamp) (n : ℕ)
      → (let r = rotation hash fresh m now e (c.sound sid e at).newest in
          session_expiry (slide r.entry now m.policy) t m.policy ≡ none)
      → (let r = rotation hash fresh m now e (c.sound sid e at).newest in
          Survives m.policy (slide r.entry now m.policy) h t n)
      → (newest : Bool) × (resolve
            (refreshed m sid now (rotation hash fresh m now e (c.sound sid e at).newest))
            h
            t
          ≡ Resolution.active sid n newest)
  refreshed_active sid e c at room unused h t n alive (g, found, same, valid) =
      let s = c.sound sid e at in
      let r = rotation hash fresh m now e s.newest in
      let e' = slide r.entry now m.policy in
      let m' = refreshed m sid now r in
      let st = rotation-IsStep hash fresh m now sid e s.newest at s room unused in
      let c' = refreshed-IsConsistent hash fresh m now sid e s.newest c at room unused in
      let at' : At m' sid e' = refreshed_at hash fresh m now sid e s.newest c at room unused in
      let q' : get h m'.index ≡ some sid = c'.owned sid e' h at' (found-claims e' h g found) in
      (
        g.gen_no == e'.current_gen,
        rw (
          resolve_found hash fresh m' t h sid e' q' at',
          refreshed_policy m sid now r,
          classify_found e' h t m.policy g alive found valid,
          same,
          c'.named sid e' at',
        ),
      )

  -- A refresh that answers has stored what `refreshed` says.
  pub refresh_issued :
      (sid : Sid) (e : SessionEntry) (h : TokenHash) (c : IsConsistent m) (at : At m sid e)
      (room : HasRoom e) {m' : SessionMap} {cookies : IssuedCookies}
      → get h m.index ≡ some sid
      → refresh hash fresh m h now ≡ issued m' cookies
      → let s = c.sound sid e at in
        (m' ≡ refreshed m sid now (rotation hash fresh m now e s.newest))
        × (cookies ≡ cookies_of hash fresh m now e s room)
  unfolding refresh_entry
  refresh_issued sid e h c at room q given =
      let s = c.sound sid e at in
      elim (Option-cases (denial (classify e h now m.policy))) [
        | inl allowed ↦ ground (
          arith,
          refresh_found hash fresh m now h sid e q at,
          refresh_entry_lem hash fresh m now sid e h allowed,
          refresh_live_lem hash fresh m now sid e s room,
        )
        | inr (d, eq) ↦ absurd (ground (arith, refresh_found hash fresh m now h sid e q at))
      ]

  -- INV-6. Whoever refreshes a session, with whichever of its cookies: a cookie of that session
  -- that would have authenticated at a later instant still does, up to `grace_secs` after the
  -- refresh. The conditions: a consistent map; a session below its cap of generations, with a
  -- generation number left in `u32`; a fresh token whose hash the index does not hold; an instant
  -- not before the refresh, within its grace, and before the idle expiry that it sets.
  pub refresh-resolve_grace :
      (sid : Sid) (e : SessionEntry) (h0 h : TokenHash) (t : Timestamp) (n : ℕ) (newest : Bool)
      {m' : SessionMap} {cookies : IssuedCookies}
      → IsConsistent m
      → At m sid e
      → HasRoom e
      → length e.gens < max m.policy.max_live_gens 1
      → get (hash fresh) m.index ≡ none
      → get h0 m.index ≡ some sid
      → get h m.index ≡ some sid
      → refresh hash fresh m h0 now ≡ issued m' cookies
      → resolve m h t ≡ Resolution.active sid n newest
      → now ≤ t
      → t < plus_secs now m.policy.grace_secs
      → t < plus_secs now m.policy.idle_ttl_secs
      → (newest' : Bool) × (resolve m' h t ≡ Resolution.active sid n newest')
  refresh-resolve_grace sid e h0 h t n newest c at room cap unused q0 q given active later grace
        idle =
      let s = c.sound sid e at in
      let token = coalesced e s.newest now m.policy in
      let (alive, (g, found, valid, num, _)) =
        classify_active e h t m.policy sid n newest
          (sym (resolve_found hash fresh m t h sid e q at) ∙ active) in
      let kept =
        rotate-Survives hash fresh m.policy now e s token h g t cap found later valid grace in
      let done =
        refreshed_active sid e c at room unused h t g.gen_no
          (rotate_alive hash fresh m.policy now e token t alive idle) kept in
      rw ((refresh_issued sid e h0 c at room q0 given).0, num) done
