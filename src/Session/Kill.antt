-- ===== src/Session/Kill.antt =====
-- session.rs, `SessionMap`: tombstones, and the health of the upstream grant.
use session_broker.Base.{
  ℕ, suc, ◌∷◌, [], Bool, true, false, not, ◌&&◌, List, none, some, ◌==◌, if◌then◌else◌, get, insert,
}
use session_broker.Clock.{Timestamp}
use session_broker.Session.Types.{
  Sid, CustodyId, tombstoned, CustodyStatus, KillReason, session_killed, custody_changed,
  SessionEntry, tombstone_session as tombstone_cmd, SessionMap,
}
use session_broker.Session.Entry.{is_tombstoned}
use session_broker.Session.Map.{persist, announce}

abbrev pub killed_entry : SessionEntry → Timestamp → SessionEntry
killed_entry e now = record e {
  status = tombstoned;
  tombstoned_at = some now;
  current_token = none;
}

unfoldable pub tombstone_session_with_reason :
    SessionMap → Sid → Timestamp → KillReason → SessionMap × Bool
tombstone_session_with_reason m sid now reason = elim (get sid m.sessions) [
  | none ↦ (m, false)
  | some e ↦ if is_tombstoned e.status then (m, false) else (
    announce (session_killed sid reason) (
        persist (tombstone_cmd sid now)
          (record m { sessions = insert sid (killed_entry e now) m.sessions })),
    true,
  )
]

unfoldable pub tombstone_session : SessionMap → Sid → Timestamp → SessionMap × Bool
unfolding tombstone_session_with_reason
tombstone_session m sid now = tombstone_session_with_reason m sid now KillReason.logged_out

-- The sessions that a custody backs and that are alive.
unfoldable pub live_sids : CustodyId → List (ℕ × SessionEntry) → List Sid
live_sids custody [] = []
live_sids custody ((k, e) ∷ es) =
    let rest = live_sids custody es in
    if (e.custody == custody) && not (is_tombstoned e.status) then e.sid ∷ rest else rest

abbrev count_true : Bool → ℕ → ℕ
count_true true n = suc n
count_true false n = n

unfoldable pub tombstone_all : SessionMap → List Sid → Timestamp → KillReason → SessionMap × ℕ
tombstone_all m [] now reason = (m, 0)
tombstone_all m (sid ∷ sids) now reason =
    let (m', killed) = tombstone_session_with_reason m sid now reason in
    let (m'', n) = tombstone_all m' sids now reason in (m'', count_true killed n)

unfoldable pub tombstone_by_custody : SessionMap → CustodyId → Timestamp → SessionMap × ℕ
unfolding tombstone_all live_sids
tombstone_by_custody m custody now =
    tombstone_all m (live_sids custody m.sessions) now KillReason.upstream_revoked

abbrev pub same_status : CustodyStatus → CustodyStatus → Bool
same_status CustodyStatus.ok CustodyStatus.ok = true
same_status CustodyStatus.degraded CustodyStatus.degraded = true
same_status CustodyStatus.dead CustodyStatus.dead = true
same_status _ _ = false

abbrev pub with_status : CustodyId → CustodyStatus → SessionEntry → SessionEntry
with_status custody status e =
    if e.custody == custody then record e { custody_status = status } else e

-- The `iter_mut` loop: the entries it leaves, and the lists it collects.
unfoldable pub set_statuses :
    CustodyId → CustodyStatus → List (ℕ × SessionEntry) → List (ℕ × SessionEntry)
set_statuses custody status [] = []
set_statuses custody status ((k, e) ∷ es) =
    (k, with_status custody status e) ∷ set_statuses custody status es

unfoldable pub changed_sids : CustodyId → CustodyStatus → List (ℕ × SessionEntry) → List Sid
changed_sids custody status [] = []
changed_sids custody status ((k, e) ∷ es) =
    let rest = changed_sids custody status es in
    if (e.custody == custody) && not (same_status e.custody_status status)
    then e.sid ∷ rest
    else rest

unfoldable pub touched_count : CustodyId → List (ℕ × SessionEntry) → ℕ
touched_count custody [] = 0
touched_count custody ((k, e) ∷ es) = count_true (e.custody == custody) (touched_count custody es)

unfoldable pub announce_all : CustodyStatus → List Sid → SessionMap → SessionMap
announce_all status [] m = m
announce_all status (sid ∷ sids) m =
    announce_all status sids (announce (custody_changed sid status) m)

unfoldable pub set_custody_status : SessionMap → CustodyId → CustodyStatus → SessionMap × ℕ
unfolding set_statuses changed_sids touched_count announce_all
set_custody_status m custody status = (
  announce_all status (changed_sids custody status m.sessions)
      (record m { sessions = set_statuses custody status m.sessions }),
  touched_count custody m.sessions,
)
