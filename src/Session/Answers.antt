-- ===== src/Session/Answers.antt =====
-- What a client gets from `resolve` and `refresh`.
use session_broker.Base.{◌≡◌, refl, ◌∙◌, Option, none, some, get, inl, inr, Option-cases}
use session_broker.Clock.{Timestamp}
use session_broker.Session.Types.{
  Sid, TokenHash, SessionToken, SessionEntry, SessionMap, Resolution, RefreshDenied, IssuedCookies,
}
use session_broker.Session.Entry.{classify}
use session_broker.Session.Map.{resolve}
use session_broker.Session.Refresh.{RefreshResult, issued, denied, denial, refresh_entry, refresh}
use session_broker.Session.Consistent.{At, IsConsistent}
use session_broker.Session.Refreshing.{
  HasRoom, refreshed, rotation, refresh_live_lem, refresh_entry_lem, refresh_found, resolve_found,
  refresh_missing, resolve_missing, cookies_of, refreshed-IsConsistent,
}

abbrev pub HaveRoom : SessionMap → Type 0
HaveRoom m = (sid : Sid) (e : SessionEntry) → At m sid e → HasRoom e

-- New cookies, and a consistent map.
abbrev pub Issues : SessionMap → RefreshResult → Type 0
Issues m r = (m' : SessionMap) × (c : IssuedCookies) × (r ≡ issued m' c) × IsConsistent m'

-- What a refresh has to answer to each verdict.
abbrev pub Answers : SessionMap → Resolution → RefreshResult → Type 0
Answers m Resolution.unknown r = r ≡ denied RefreshDenied.unknown
Answers m (Resolution.retired sid gen_no) r = r ≡ denied (RefreshDenied.retired sid gen_no)
Answers m (Resolution.hard_expired sid reason) r = r ≡ denied (RefreshDenied.expired sid reason)
Answers m (Resolution.active sid gen_no newest) r = Issues m r
Answers m (Resolution.stale_refreshable sid gen_no) r = Issues m r

-- The same by the denial that the code computes.
abbrev Follows : SessionMap → Option RefreshDenied → RefreshResult → Type 0
Follows m (some d) r = r ≡ denied d
Follows m none r = Issues m r

Follows-Answers :
    (m : SessionMap) (v : Resolution) (r : RefreshResult) → Follows m (denial v) r → Answers m v r
Follows-Answers m Resolution.unknown r f = f
Follows-Answers m (Resolution.retired sid gen_no) r f = f
Follows-Answers m (Resolution.hard_expired sid reason) r f = f
Follows-Answers m (Resolution.active sid gen_no newest) r f = f
Follows-Answers m (Resolution.stale_refreshable sid gen_no) r f = f

module _ (hash : SessionToken → TokenHash) (fresh : SessionToken) (m : SessionMap) (h : TokenHash)
    (now : Timestamp) where
  Follows-refresh_entry :
      (sid : Sid) (e : SessionEntry)
      → IsConsistent m
      → At m sid e
      → HasRoom e
      → get (hash fresh) m.index ≡ none
      → Follows m (denial (classify e h now m.policy)) (refresh_entry hash fresh m sid e h now)
  unfolding refresh_entry
  Follows-refresh_entry sid e c at room unused =
      elim (Option-cases (denial (classify e h now m.policy))) [
        | inl allowed ↦
            let s = c.sound sid e at in
            rw allowed (
              refreshed m sid now (rotation hash fresh m now e s.newest),
              cookies_of hash fresh m now e s room,
              refresh_entry_lem hash fresh m now sid e h allowed
                  ∙ refresh_live_lem hash fresh m now sid e s room,
              refreshed-IsConsistent hash fresh m now sid e s.newest c at room unused,
            )
        | inr (d, eq) ↦ rw (eq, refresh_entry) refl
      ]

  follows :
      IsConsistent m
      → HaveRoom m
      → get (hash fresh) m.index ≡ none
      → Follows m (denial (resolve m h now)) (refresh hash fresh m h now)
  follows c room unused = elim (Option-cases (get h m.index)) [
    | inl missing ↦
        rw (resolve_missing hash fresh m now h missing) (refresh_missing hash fresh m now h missing)
    | inr (sid, q) ↦
        let (e, at, claimed) = c.owner h sid q in
        rw (resolve_found hash fresh m now h sid e q at) (
          rw (refresh_found hash fresh m now h sid e q at)
            (Follows-refresh_entry sid e c at (room sid e at) unused))
  ]

  -- On a consistent map, if every session has a generation number left in `u32` and the index
  -- does not hold the hash of the fresh token, `refresh` never panics: it refuses exactly the tokens that `resolve`
  -- calls unknown, retired or expired, with the matching reason, and answers every active or
  -- stale one with new cookies; the map stays consistent.
  pub refresh-resolve :
      IsConsistent m
      → HaveRoom m
      → get (hash fresh) m.index ≡ none
      → Answers m (resolve m h now) (refresh hash fresh m h now)
  refresh-resolve c room unused =
      Follows-Answers m (resolve m h now) (refresh hash fresh m h now) (follows c room unused)
