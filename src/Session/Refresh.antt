-- ===== src/Session/Refresh.antt =====
-- session.rs, `SessionMap::refresh`: coalesce onto the current generation, or rotate.
use session_broker.Base.{Bool, true, false, [], Option, none, some, ltb, if◌then◌else◌, get, insert}
use session_broker.Clock.{Timestamp, since}
use session_broker.Session.Types.{
  Sid, SessionToken, TokenHash, SessionPolicy, Generation, Resolution, RefreshDenied, SessionMeta,
  IssuedCookies, IndexEffects, SessionEntry, update_session_progress, SessionMap,
}
use session_broker.Session.Entry.{current, classify, meta, slide, mint}
use session_broker.Session.Map.{apply, persist}

pub data RefreshResult : Type 0 where
  issued : SessionMap → IssuedCookies → RefreshResult
  denied : RefreshDenied → RefreshResult
  panicked : RefreshResult

-- The first `match` of `refresh`.
abbrev pub denial : Resolution → Option RefreshDenied
denial Resolution.unknown = some RefreshDenied.unknown
denial (Resolution.retired sid gen_no) = some (RefreshDenied.retired sid gen_no)
denial (Resolution.hard_expired sid reason) = some (RefreshDenied.expired sid reason)
denial (Resolution.active sid gen_no newest) = none
denial (Resolution.stale_refreshable sid gen_no) = none

unfoldable pub coalesced :
    SessionEntry → Generation → Timestamp → SessionPolicy → Option SessionToken
coalesced e g now policy =
    if ltb (since now g.created_at) policy.coalesce_secs then e.current_token else none

pub record Rotation : Type 0 where
  pub entry : SessionEntry
  pub token : SessionToken
  pub rotated : Bool
  pub effects : IndexEffects

abbrev no_effects : IndexEffects
no_effects = record { added = none; superseded = none; purged = [] }

unfoldable pub rotate :
    (SessionToken → TokenHash)
    → SessionToken
    → SessionEntry
    → Timestamp
    → SessionPolicy
    → Option SessionToken
    → Rotation
rotate hash fresh e now policy (some token) = record {
  entry = e;
  token = token;
  rotated = false;
  effects = no_effects;
}
rotate hash fresh e now policy none =
    let (e', effects) = mint hash fresh e now policy in
    record { entry = e'; token = fresh; rotated = true; effects = effects }

abbrev issued_cookies : Rotation → SessionMeta → IssuedCookies
issued_cookies r meta = record { token = r.token; meta = meta; rotated = r.rotated }

-- From `entry.slide` to the end.
unfoldable pub finish_refresh : SessionMap → Sid → Timestamp → Rotation → RefreshResult
finish_refresh m sid now r =
    let e = slide r.entry now m.policy in
    elim (meta e) [
      | none ↦ panicked
      | some meta ↦
          issued
            (persist (update_session_progress sid e.current_gen e.idle_exp)
              (apply r.effects sid (record m { sessions = insert sid e m.sessions })))
            (issued_cookies r meta)
    ]

unfoldable pub refresh_live :
    (SessionToken → TokenHash)
    → SessionToken
    → SessionMap
    → Sid
    → SessionEntry
    → Timestamp
    → RefreshResult
unfolding finish_refresh
refresh_live hash fresh m sid e now = elim (current e) [
  | none ↦ panicked
  | some g ↦
      finish_refresh m sid now (rotate hash fresh e now m.policy (coalesced e g now m.policy))
]

unfoldable pub refresh_entry :
    (SessionToken → TokenHash)
    → SessionToken
    → SessionMap
    → Sid
    → SessionEntry
    → TokenHash
    → Timestamp
    → RefreshResult
refresh_entry hash fresh m sid e h now = elim (denial (classify e h now m.policy)) [
  | some d ↦ denied d
  | none ↦ refresh_live hash fresh m sid e now
]

unfoldable pub refresh :
    (SessionToken → TokenHash) → SessionToken → SessionMap → TokenHash → Timestamp → RefreshResult
refresh hash fresh m h now = elim (get h m.index) [
  | none ↦ denied RefreshDenied.unknown
  | some sid ↦ elim (get sid m.sessions) [
    | none ↦ denied RefreshDenied.unknown
    | some e ↦ refresh_entry hash fresh m sid e h now
  ]
]
