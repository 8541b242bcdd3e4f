-- ===== src/Session/Refreshing.antt =====
-- session.rs, `SessionMap::refresh`: what it answers, and the invariant of the map.
use session_broker.Base.{◌+◌, ◌≤◌, ◌<◌, ◌≡◌, refl, Option, none, some, arith, count, get, ◌^◌}
use session_broker.Clock.{Timestamp}
use session_broker.Session.Types.{
  Sid, TokenHash, SessionToken, SessionPolicy, Generation, SessionEntry, SessionMeta, SessionMap,
  RefreshDenied, IssuedCookies, update_session_progress, Resolution,
}
use session_broker.Session.Entry.{classify, meta, slide, mint, all_hashes, reap_generations}
use session_broker.Session.Map.{persist, resolve, entry_for, sid_for_hash}
use session_broker.Session.Refresh.{
  issued, denied, denial, coalesced, Rotation, rotate, finish_refresh, refresh_live, refresh_entry,
  refresh,
}
use session_broker.Session.Hashes.{claims, apply_rest, mint-claims}
use session_broker.Session.Sound.{IsSound, current-newest, mint-IsSound, slide-IsSound}
use session_broker.Session.Consistent.{
  At, IsConsistent, IsStep, stepped, stepped-IsConsistent, stepped_at, added_count,
}

-- The hint that the client gets for an entry whose newest generation is `g`.
abbrev pub meta_of : SessionEntry → Generation → SessionMeta
meta_of e g = record {
  v = 1;
  sub = e.sub;
  sid = e.sid;
  gen = e.current_gen;
  active_until = g.active_until;
  refresh_until = e.idle_exp;
  absolute_until = e.absolute_exp;
  custody = e.custody_status;
}

-- Room for one more generation number.
abbrev pub HasRoom : SessionEntry → Type 0
HasRoom e = e.current_gen + 1 < 2 ^ 32

abbrev pub refreshed : SessionMap → Sid → Timestamp → Rotation → SessionMap
refreshed m sid now r =
    let e = slide r.entry now m.policy in
    persist (update_session_progress sid e.current_gen e.idle_exp) (stepped m sid e r.effects)

pub meta_lem :
    (p : SessionPolicy) (e : SessionEntry) (s : IsSound p e) → meta e ≡ some (meta_of e s.newest)
unfolding meta
meta_lem p e s = rw (current-newest p e s, meta)

module _ (hash : SessionToken → TokenHash) (fresh : SessionToken) (m : SessionMap)
    (now : Timestamp) where
  -- The rotation that `refresh` makes of an entry whose newest generation is `g`.
  abbrev pub rotation : SessionEntry → Generation → Rotation
  rotation e g = rotate hash fresh e now m.policy (coalesced e g now m.policy)

  rotate-IsSound :
      (e : SessionEntry) (t : Option SessionToken)
      → IsSound m.policy e
      → HasRoom e
      → IsSound m.policy (rotate hash fresh e now m.policy t).entry
  unfolding rotate
  rotate-IsSound e (some t) s room = s
  rotate-IsSound e none s room = mint-IsSound hash fresh m.policy now e s room

  -- The entry that a refresh stores is sound.
  pub rotation-IsSound :
      (e : SessionEntry) (g : Generation)
      → IsSound m.policy e
      → HasRoom e
      → IsSound m.policy (slide (rotation e g).entry now m.policy)
  rotation-IsSound e g s room =
      slide-IsSound m.policy now _ (rotate-IsSound e (coalesced e g now m.policy) s room)

  -- The cookies that a refresh of the entry sets.
  abbrev pub cookies_of : (e : SessionEntry) → IsSound m.policy e → HasRoom e → IssuedCookies
  cookies_of e s room =
      let r = rotation e s.newest in
      record {
        token = r.token;
        meta = meta_of (slide r.entry now m.policy) (rotation-IsSound e s.newest s room).newest;
        rotated = r.rotated;
      }

  -- On a sound entry `refresh_live` issues, and never panics.
  pub refresh_live_lem :
      (sid : Sid) (e : SessionEntry) (s : IsSound m.policy e) (room : HasRoom e)
      → let r = rotation e s.newest in
        refresh_live hash fresh m sid e now ≡ issued (refreshed m sid now r) (cookies_of e s room)
  unfolding refresh_live finish_refresh
  refresh_live_lem sid e s room =
      rw (current-newest m.policy e s, refresh_live)
        (rw (meta_lem m.policy _ (rotation-IsSound e s.newest s room), finish_refresh))

  pub refresh_entry_lem :
      (sid : Sid) (e : SessionEntry) (h : TokenHash)
      → denial (classify e h now m.policy) ≡ none
      → refresh_entry hash fresh m sid e h now ≡ refresh_live hash fresh m sid e now
  unfolding refresh_entry
  refresh_entry_lem sid e h d = rw (d, refresh_entry)

  -- Behind a hash that the index knows stands an entry; `refresh` is decided by its verdict.
  pub refresh_found :
      (h : TokenHash) (sid : Sid) (e : SessionEntry)
      → get h m.index ≡ some sid
      → At m sid e
      → refresh hash fresh m h now ≡ refresh_entry hash fresh m sid e h now
  unfolding refresh
  refresh_found h sid e q at = rw (q, refresh) (rw (at, refresh))

  pub resolve_found :
      (h : TokenHash) (sid : Sid) (e : SessionEntry)
      → get h m.index ≡ some sid
      → At m sid e
      → resolve m h now ≡ classify e h now m.policy
  unfolding resolve entry_for sid_for_hash
  resolve_found h sid e q at = rw (q, resolve) (rw (at, resolve))

  pub refresh_missing :
      (h : TokenHash)
      → get h m.index ≡ none
      → refresh hash fresh m h now ≡ denied RefreshDenied.unknown
  unfolding refresh
  refresh_missing h q = rw (q, refresh)

  pub resolve_missing :
      (h : TokenHash) → get h m.index ≡ none → resolve m h now ≡ Resolution.unknown
  unfolding resolve entry_for sid_for_hash
  resolve_missing h q = rw (q, resolve)

  abbrev rotated_with : SessionEntry → Option SessionToken → Rotation
  rotated_with e t = rotate hash fresh e now m.policy t

  -- What a rotation does with the hashes, whichever of the two it is.
  pub rotate_claims :
      (e : SessionEntry) (t : Option SessionToken) (h : TokenHash)
      → claims (slide (rotated_with e t).entry now m.policy) h
          + count h (rotated_with e t).effects.purged
        ≡ claims e h + added_count (rotated_with e t).effects.added h
  unfolding rotate slide all_hashes count mint
  rotate_claims e (some t) h = refl
  rotate_claims e none h = mint-claims hash fresh e now m.policy h

  rotate_fresh :
      (e : SessionEntry) (t : Option SessionToken) (h : TokenHash)
      → get (hash fresh) m.index ≡ none
      → 1 ≤ added_count (rotated_with e t).effects.added h
      → get h m.index ≡ none
  unfolding rotate mint count
  rotate_fresh e (some t) h unused one = absurd (omega arith)
  rotate_fresh e none h unused one = ground arith

  rotate_sid :
      (e : SessionEntry) (t : Option SessionToken)
      → (slide (rotated_with e t).entry now m.policy).sid ≡ e.sid
  unfolding rotate slide mint reap_generations
  rotate_sid e (some t) = refl
  rotate_sid e none = refl

  -- A refresh is one step of the map, if the token drawn is new to the index.
  pub rotation-IsStep :
      (sid : Sid) (e : SessionEntry) (g : Generation)
      → At m sid e
      → IsSound m.policy e
      → HasRoom e
      → get (hash fresh) m.index ≡ none
      → IsStep m sid e (slide (rotation e g).entry now m.policy) (rotation e g).effects
  rotation-IsStep sid e g at s room unused =
      let t = coalesced e g now m.policy in
      record {
        before = at;
        conserved = rotate_claims e t;
        fresh = λ h. rotate_fresh e t h unused;
        same_sid = rotate_sid e t;
        after_sound = rotation-IsSound e g s room;
      }

  pub refreshed-IsConsistent :
      (sid : Sid) (e : SessionEntry) (g : Generation)
      → IsConsistent m
      → At m sid e
      → HasRoom e
      → get (hash fresh) m.index ≡ none
      → IsConsistent (refreshed m sid now (rotation e g))
  unfolding persist
  refreshed-IsConsistent sid e g c at room unused =
      let st = rotation-IsStep sid e g at (c.sound sid e at) room unused in
      let k = stepped-IsConsistent m sid e _ _ c st in
      record {
        owner = k.owner;
        owned = k.owned;
        distinct = k.distinct;
        named = k.named;
        sound = k.sound;
      }

  pub refreshed_at :
      (sid : Sid) (e : SessionEntry) (g : Generation)
      → IsConsistent m
      → At m sid e
      → HasRoom e
      → get (hash fresh) m.index ≡ none
      → At (refreshed m sid now (rotation e g)) sid (slide (rotation e g).entry now m.policy)
  unfolding persist
  refreshed_at sid e g c at room unused =
      let st = rotation-IsStep sid e g at (c.sound sid e at) room unused in
      ground (arith, stepped_at m sid e _ _ c st sid)

pub refreshed_policy :
    (m : SessionMap) (sid : Sid) (now : Timestamp) (r : Rotation)
    → (refreshed m sid now r).policy ≡ m.policy
unfolding persist
refreshed_policy m sid now r = (apply_rest r.effects sid _).1
