-- ===== src/Session/Coalescing.antt =====
-- session.rs, `SessionMap::refresh`: refreshes at one instant, one after another in any order.
use session_broker.Base.{
  ℕ, All, ◌+◌, ◌≤◌, ◌<◌, ◌≡◌, refl, ◌∷◌, [], ◌++◌, false, List, Option, none, some, arith, get, ◌^◌,
}
use session_broker.Clock.{Timestamp, since}
use session_broker.Session.Types.{
  Sid, TokenHash, SessionToken, SessionPolicy, Generation, SessionEntry, SessionMap, IssuedCookies,
}
use session_broker.Session.Entry.{current, mint, slide, minted_gen, next_gen_no, reap_generations}
use session_broker.Session.Refresh.{refresh, issued, rotate, coalesced}
use session_broker.Session.Sound.{IsSound, current-newest}
use session_broker.Session.Minting.{mint_lem, survivors}
use session_broker.Session.Newest.{last_gen-append}
use session_broker.Session.Consistent.{At, IsConsistent}
use session_broker.Session.Refreshing.{
  HasRoom, rotation, refreshed_at, refreshed_policy, refreshed-IsConsistent,
}
use session_broker.Session.Grace.{refresh_issued}

-- The newest generation is young enough to be handed out again, and its plaintext is in memory.
abbrev pub IsCoalescable : SessionPolicy → SessionEntry → SessionToken → Timestamp → Type 0
IsCoalescable p e token now =
    (e.current_token ≡ some token)
    × ((g : Generation) × (current e ≡ some g) × (since now g.created_at < p.coalesce_secs))

since_self : (t : Timestamp) → since t t ≡ 0
unfolding since
since_self t = ground arith

module _ (hash : SessionToken → TokenHash) (fresh : SessionToken) (p : SessionPolicy)
    (now : Timestamp) (e : SessionEntry) (s : IsSound p e) where
  -- A refresh leaves its own token as the one to coalesce on.
  rotate-IsCoalescable :
      0 < p.coalesce_secs
      → (c : Option SessionToken) → coalesced e s.newest now p ≡ c
      → let r = rotate hash fresh e now p c in IsCoalescable p (slide r.entry now p) r.token now
  unfolding rotate slide current coalesced
  rotate-IsCoalescable window (some token) eq =
      (ground arith, (s.newest, current-newest p e s, ground arith))
  rotate-IsCoalescable window none eq =
      let m = minted_gen hash fresh e now p in
      rw (mint_lem hash fresh p now e s.older s.newest s.gens_eq) (
        refl,
        (
          m,
          last_gen-append
              (survivors p now (next_gen_no e.current_gen) e.retired_gens
                (s.older ++ record (s.newest) { superseded_at = some now } ∷ [])).0
              m,
          omega (arith, since_self now),
        ),
      )

  rotate_gen :
      (c : Option SessionToken)
      → HasRoom e
      → (slide (rotate hash fresh e now p c).entry now p).current_gen ≤ e.current_gen + 1
  unfolding rotate slide mint reap_generations
  rotate_gen (some token) room = omega arith
  rotate_gen none room = omega arith

  -- On such an entry a refresh coalesces.
  coalesced_lem :
      {token : SessionToken} → IsCoalescable p e token now → coalesced e s.newest now p ≡ some token
  unfolding coalesced
  coalesced_lem (held, (g, cur, near)) =
      let is_g : s.newest ≡ g = cc (current-newest p e s) in ground arith

-- Refreshes of one session at one instant, each with some cookie of it, and what they hand out.
pub data Burst (hash : SessionToken → TokenHash) (sid : Sid) (now : Timestamp)
    : SessionMap → List IssuedCookies → Type 0 where
  done : {m : SessionMap} → Burst hash sid now m []
  again :
      {m m' : SessionMap} {c : IssuedCookies} {cs : List IssuedCookies}
      → (fresh : SessionToken) (h : TokenHash) → get (hash fresh) m.index ≡ none
      → get h m.index ≡ some sid
      → refresh hash fresh m h now ≡ issued m' c
      → Burst hash sid now m' cs
      → Burst hash sid now m (c ∷ cs)

abbrev pub SameCookie : SessionToken → ℕ → IssuedCookies → Type 0
SameCookie token gen c = (c.token ≡ token) × (c.rotated ≡ false) × (c.meta.gen ≡ gen)

rotate-some :
    (hash : SessionToken → TokenHash) (fresh : SessionToken) (e : SessionEntry) (now : Timestamp)
    (p : SessionPolicy) (c : Option SessionToken) {token : SessionToken}
    → c ≡ some token
    → let r = rotate hash fresh e now p c in (r.entry ≡ e) × (r.token ≡ token) × (r.rotated ≡ false)
unfolding rotate
rotate-some hash fresh e now p none eq = cc
rotate-some hash fresh e now p (some t) eq = (refl, ground arith, refl)

module _ (hash : SessionToken → TokenHash) (sid : Sid) (now : Timestamp) where
  Burst-coalesces :
      {m : SessionMap} {cs : List IssuedCookies} (e : SessionEntry) (token : SessionToken)
      → IsConsistent m
      → At m sid e
      → HasRoom e
      → IsCoalescable m.policy e token now
      → Burst hash sid now m cs
      → All (SameCookie token e.current_gen) cs
  unfolding slide current
  Burst-coalesces e token c at room near done = tt
  Burst-coalesces {m} e token c at room near
        (again {m' = m1} {c = cookies} fresh h unused q given rest) =
      let s = c.sound sid e at in
      let r = rotation hash fresh m now e s.newest in
      let (same_map, same_cookies) = refresh_issued hash fresh m now sid e h c at room q given in
      let (kept, same_token, unrotated) =
        rotate-some hash fresh e now m.policy _ (coalesced_lem hash fresh m.policy now e s near) in
      let c' : IsConsistent m1 =
        rw same_map (refreshed-IsConsistent hash fresh m now sid e s.newest c at room unused) in
      let e1 = slide e now m.policy in
      let at1 : At m1 sid e1 =
        ground (arith, refreshed_at hash fresh m now sid e s.newest c at room unused) in
      let near1 : IsCoalescable m1.policy e1 token now =
        rw (same_map, refreshed_policy m sid now r) near in
      ((ground arith, ground arith, ground arith), Burst-coalesces e1 token c' at1 room near1 rest)

  -- However many requests refresh one session at one instant, each with any of its cookies, all
  -- after the first get the first one's cookie, and none of them mints a generation. The
  -- conditions: a consistent map, fresh tokens whose hashes the index does not hold, a window of
  -- coalescing that is not empty, and two generation numbers left in `u32`.
  pub Burst-refresh :
      (m : SessionMap) (e : SessionEntry) (fresh : SessionToken) (h : TokenHash) {m' : SessionMap}
      {c : IssuedCookies} {cs : List IssuedCookies}
      → IsConsistent m
      → At m sid e
      → e.current_gen + 2 < 2 ^ 32
      → 0 < m.policy.coalesce_secs
      → get (hash fresh) m.index ≡ none
      → get h m.index ≡ some sid
      → refresh hash fresh m h now ≡ issued m' c
      → Burst hash sid now m' cs
      → All (SameCookie c.token c.meta.gen) cs
  Burst-refresh m e fresh h {m'} {c} {cs} con at room window unused q given burst =
      let s = con.sound sid e at in
      let room1 : HasRoom e = omega arith in
      let r = rotation hash fresh m now e s.newest in
      let token = coalesced e s.newest now m.policy in
      let e1 = slide r.entry now m.policy in
      let (same_map, same_cookies) = refresh_issued hash fresh m now sid e h con at room1 q given in
      let con1 : IsConsistent m' =
        rw same_map (refreshed-IsConsistent hash fresh m now sid e s.newest con at room1 unused) in
      let at1 : At m' sid e1 =
        rw same_map (refreshed_at hash fresh m now sid e s.newest con at room1 unused) in
      let near : IsCoalescable m'.policy e1 r.token now =
        rw (same_map, refreshed_policy m sid now r)
          (rotate-IsCoalescable hash fresh m.policy now e s window token refl) in
      rw same_cookies (
        Burst-coalesces e1 r.token con1 at1
          (omega (arith, rotate_gen hash fresh m.policy now e s token room1)) near burst)
