-- ===== src/Session/Killing.antt =====
-- Logout and revocation: what `tombstone_session_with_reason` and `tombstone_by_custody` end.
use mathlib.Core.Path.{subst}
use session_broker.Base.{
  ◌≡◌, ◌⊎◌, refl, sym, ◌∷◌, [], Bool, true, false, List, Option, none, some, In, ◌==◌, arith, count,
  if◌then◌else◌, get, insert, get-insert, inl, inr, Bool-cases, Option-cases,
}
use session_broker.Clock.{Timestamp}
use session_broker.Session.Types.{
  session_killed, tombstone_session, Sid, TokenHash, SessionPolicy, SessionEntry, SessionMap,
  KillReason, IndexEffects,
}
use session_broker.Session.Entry.{is_tombstoned, all_hashes}
use session_broker.Session.Map.{
  apply, apply_added, apply_superseded, apply_purged, persist, announce,
}
use session_broker.Session.Kill.{tombstone_session_with_reason, tombstone_all, killed_entry}
use session_broker.Session.Sound.{IsSound}
use session_broker.Session.Consistent.{At, IsConsistent, stepped-IsConsistent}

-- A mutation of one entry that leaves its hashes alone, and does not touch the index.
pub same_hashes-IsConsistent :
    (m : SessionMap) (sid : Sid) (e e' : SessionEntry)
    → IsConsistent m
    → At m sid e
    → ((h : TokenHash) → count h (all_hashes e') ≡ count h (all_hashes e))
    → e'.sid ≡ e.sid
    → IsSound m.policy e'
    → IsConsistent (record m { sessions = insert sid e' m.sessions })
unfolding apply apply_added apply_superseded apply_purged count
same_hashes-IsConsistent m sid e e' c at same named sound =
    let none_added : IndexEffects = record { added = none; superseded = none; purged = [] } in
    stepped-IsConsistent m sid e e' none_added c (record {
      before = at;
      conserved = λ h. omega (arith, same h);
      fresh = λ h one. absurd (omega arith);
      same_sid = named;
      after_sound = sound;
    })

-- An entry after a kill: only one that is alive changes.
abbrev pub killed : Timestamp → SessionEntry → SessionEntry
killed now e = if is_tombstoned e.status then e else killed_entry e now

abbrev pub killed_at : Timestamp → Option SessionEntry → Option SessionEntry
killed_at now none = none
killed_at now (some e) = some (killed now e)

-- The session has been killed and is not yet collected.
abbrev pub IsDead : SessionMap → Sid → Type 0
IsDead m sid = (e : SessionEntry) × At m sid e × (is_tombstoned e.status ≡ true)

module _ (now : Timestamp) (reason : KillReason) where
  abbrev pub kill : SessionMap → Sid → SessionMap
  kill m sid = (tombstone_session_with_reason m sid now reason).0

  -- A kill changes the entry of its session, and no other; the index and the policy stay.
  pub kill_at :
      (m : SessionMap) (sid k : Sid)
      → get k (kill m sid).sessions
        ≡ (if sid == k then killed_at now (get k m.sessions) else get k m.sessions)
  unfolding tombstone_session_with_reason persist announce
  kill_at m sid k = elim (Option-cases (get sid m.sessions)) [
    | inl missing ↦ ground arith
    | inr (e, at) ↦ ground (arith, get-insert sid k (killed_entry e now) m.sessions)
  ]

  pub kill_rest :
      (m : SessionMap) (sid : Sid)
      → ((kill m sid).index ≡ m.index) × ((kill m sid).policy ≡ m.policy)
  unfolding tombstone_session_with_reason persist announce
  kill_rest m sid = ground arith

  killed-IsSound :
      (p : SessionPolicy) (e : SessionEntry) → IsSound p e → IsSound p (killed_entry e now)
  killed-IsSound p e s = record {
    older = s.older;
    newest = s.newest;
    gens_eq = s.gens_eq;
    newest_no = s.newest_no;
    newest_open = s.newest_open;
    older_closed = s.older_closed;
    live_bound = s.live_bound;
    retired_bound = s.retired_bound;
    idle_bound = s.idle_bound;
  }

  kill_missing :
      (m : SessionMap) (sid : Sid)
      → get sid m.sessions ≡ none
      → tombstone_session_with_reason m sid now reason ≡ (m, false)
  unfolding tombstone_session_with_reason
  kill_missing m sid eq = rw (eq, tombstone_session_with_reason)

  kill_dead :
      (m : SessionMap) (sid : Sid) (e : SessionEntry)
      → At m sid e
      → is_tombstoned e.status ≡ true
      → tombstone_session_with_reason m sid now reason ≡ (m, false)
  unfolding tombstone_session_with_reason
  kill_dead m sid e at dead = rw (at, tombstone_session_with_reason) (rw dead)

  abbrev killed_map : SessionMap → Sid → SessionEntry → SessionMap
  killed_map m sid e = announce (session_killed sid reason) (
      persist (tombstone_session sid now)
        (record m { sessions = insert sid (killed_entry e now) m.sessions }))

  kill_alive :
      (m : SessionMap) (sid : Sid) (e : SessionEntry)
      → At m sid e
      → is_tombstoned e.status ≡ false
      → tombstone_session_with_reason m sid now reason ≡ (killed_map m sid e, true)
  unfolding tombstone_session_with_reason
  kill_alive m sid e at alive = rw (at, tombstone_session_with_reason) (rw alive)

  killed_map-IsConsistent :
      (m : SessionMap) (sid : Sid) (e : SessionEntry)
      → At m sid e
      → IsConsistent m
      → IsConsistent (killed_map m sid e)
  unfolding persist announce all_hashes
  killed_map-IsConsistent m sid e at c =
      let k =
        same_hashes-IsConsistent m sid e (killed_entry e now) c at (λ h. refl) refl
          (killed-IsSound m.policy e (c.sound sid e at)) in
      record {
        owner = k.owner;
        owned = k.owned;
        distinct = k.distinct;
        named = k.named;
        sound = k.sound;
      }

  -- A kill, for whatever reason and of whatever session, keeps a consistent map consistent.
  pub kill-IsConsistent : (m : SessionMap) (sid : Sid) → IsConsistent m → IsConsistent (kill m sid)
  kill-IsConsistent m sid c = elim (Option-cases (get sid m.sessions)) [
    | inl missing ↦
        subst (λ (r : SessionMap × Bool). IsConsistent r.0) (sym (kill_missing m sid missing)) c
    | inr (e, at) ↦ elim (Bool-cases (is_tombstoned e.status)) [
      | inl dead ↦
          subst (λ (r : SessionMap × Bool). IsConsistent r.0) (sym (kill_dead m sid e at dead)) c
      | inr alive ↦
          subst (λ (r : SessionMap × Bool). IsConsistent r.0) (sym (kill_alive m sid e at alive))
            (killed_map-IsConsistent m sid e at c)
    ]
  ]

  -- A list of kills changes the entries of the listed sessions alone.
  abbrev pub kills : SessionMap → List Sid → SessionMap
  kills m sids = (tombstone_all m sids now reason).0

  pub kills_rest :
      (m : SessionMap) (sids : List Sid)
      → ((kills m sids).index ≡ m.index) × ((kills m sids).policy ≡ m.policy)
  unfolding tombstone_all
  kills_rest m [] = (refl, refl)
  kills_rest m (sid ∷ sids) = ground (arith, kill_rest m sid, kills_rest (kill m sid) sids)

  pub kills-IsConsistent :
      (m : SessionMap) (sids : List Sid) → IsConsistent m → IsConsistent (kills m sids)
  unfolding tombstone_all
  kills-IsConsistent m [] c = c
  kills-IsConsistent m (sid ∷ sids) c =
      kills-IsConsistent (kill m sid) sids (kill-IsConsistent m sid c)

  pub kill-IsDead :
      (m : SessionMap) (sid k : Sid) (e : SessionEntry)
      → At m k e
      → (sid ≡ k) ⊎ (is_tombstoned e.status ≡ true)
      → IsDead (kill m sid) k
  kill-IsDead m sid k e at why =
      ((if sid == k then killed now e else e), ground (arith, kill_at m sid k), ground arith)

  kills-IsDead_keep :
      (m : SessionMap) (sids : List Sid) (k : Sid) → IsDead m k → IsDead (kills m sids) k
  unfolding tombstone_all
  kills-IsDead_keep m [] k d = d
  kills-IsDead_keep m (sid ∷ sids) k (e, at, dead) =
      kills-IsDead_keep (kill m sid) sids k (kill-IsDead m sid k e at (inr dead))

  pub kills-IsDead :
      (m : SessionMap) (sids : List Sid) (k : Sid) (e : SessionEntry)
      → At m k e
      → In k sids ⊎ (is_tombstoned e.status ≡ true)
      → IsDead (kills m sids) k
  unfolding tombstone_all
  kills-IsDead m [] k e at (inl h) = elim h [ ]
  kills-IsDead m [] k e at (inr d) = (e, at, d)
  kills-IsDead m (sid ∷ sids) k e at (inl (inl same)) =
      kills-IsDead_keep (kill m sid) sids k (kill-IsDead m sid k e at (inl (sym same)))
  kills-IsDead m (sid ∷ sids) k e at (inl (inr later)) =
      let e' : SessionEntry = if sid == k then killed now e else e in
      kills-IsDead (kill m sid) sids k e' (ground (arith, kill_at m sid k)) (inl later)
  kills-IsDead m (sid ∷ sids) k e at (inr d) =
      kills-IsDead_keep (kill m sid) sids k (kill-IsDead m sid k e at (inr d))
