-- ===== src/Store/Killed.antt =====
-- session.rs and store/repo.rs: the end of a session, on the map and on the tables.
use session_broker.Base.{
  ◌≡◌, refl, sym, ap, ◌∙◌, ◌∷◌, [], ◌++◌, true, false, List, none, some, inl, inr, Bool-cases,
  Option-cases, arith, get, get-update, some-inj, none-some, true-false, Option,
}
use mathlib.Core.Path.{subst}
use session_broker.Clock.{Timestamp}
use session_broker.Session.Types
use session_broker.Session.Types.{
  Sid, CustodyId, Subject, SessionToken, TokenHash, SessionRow, SessionPolicy, alive, Generation,
  SessionEntry, SessionMap, KillReason, Resolution,
}
use session_broker.Session.Entry.{all_hashes, is_tombstoned}
use session_broker.Session.Map.{announce, persist, sent}
use session_broker.Session.Consistent.{At}
use session_broker.Store.Rows.{StoredSession, Db}
use session_broker.Store.Statements.{tombstone_session, with_tombstone, first_death}
use session_broker.Store.Writer.{apply_session}
use session_broker.Session.Kill.{killed_entry, tombstone_session_with_reason}
use session_broker.Session.Killing.{kill_at}
use session_broker.Store.Mirror.{Covers, Mirrors, apply_all}
use session_broker.Store.Mirrored.{IsChange, IsClean, changed-Mirrors, IsCarried, unchanged}

nothing_missing :
    (m : SessionMap) (sid : Sid) (now : Timestamp) (reason : KillReason)
    → get sid m.sessions ≡ none
    → (tombstone_session_with_reason m sid now reason).0 ≡ m
unfolding tombstone_session_with_reason
nothing_missing m sid now reason missing = rw (missing, tombstone_session_with_reason) refl

nothing_dead :
    (m : SessionMap) (sid : Sid) (now : Timestamp) (reason : KillReason) (e : SessionEntry)
    → At m sid e
    → is_tombstoned e.status ≡ true
    → (tombstone_session_with_reason m sid now reason).0 ≡ m
unfolding tombstone_session_with_reason
nothing_dead m sid now reason e at dead =
    rw (at, tombstone_session_with_reason) (rw (dead, tombstone_session_with_reason) refl)

sent_tombstone :
    (m : SessionMap) (sid : Sid) (now : Timestamp) (reason : KillReason) (e : SessionEntry)
    (before : List Types.Command)
    → At m sid e
    → is_tombstoned e.status ≡ false
    → m.durability ≡ some before
    → (tombstone_session_with_reason m sid now reason).0.durability
      ≡ some (before ++ Types.Command.tombstone_session sid now ∷ [])
unfolding tombstone_session_with_reason persist announce
sent_tombstone m sid now reason e before at lives queue =
    rw (at, tombstone_session_with_reason)
      (rw (lives, tombstone_session_with_reason)
        (ap (sent (Types.Command.tombstone_session sid now)) queue))

one_tombstone :
    (db : Db) (sid : Sid) (now : Timestamp)
    → apply_all (Types.Command.tombstone_session sid now ∷ []) db
      ≡ some (tombstone_session db sid now)
unfolding apply_all apply_session
one_tombstone db sid now = refl

tombstone-IsChange :
    (db : Db) (m : SessionMap) (sid : Sid) (now : Timestamp) (reason : KillReason)
    (e : SessionEntry)
    → Covers db m
    → At m sid e
    → is_tombstoned e.status ≡ false
    → IsChange db
        (tombstone_session db sid now)
        m
        (tombstone_session_with_reason m sid now reason).0
        sid
        (killed_entry e now)
unfolding tombstone_session all_hashes
tombstone-IsChange db m sid now reason e mirror at lives =
    let (s, held, agrees) = mirror.session_kept sid e at in
    record {
      entry_at = λ k. ground (arith, kill_at now reason m sid k, at, lives);
      row_kept = (
        with_tombstone now s,
        ground (arith, get-update sid sid (with_tombstone now) db.sessions, held),
        (agrees.0, agrees.1, agrees.2, agrees.3, agrees.4, agrees.5, refl),
      );
      other_sessions = λ k apart. ground (arith, get-update sid k (with_tombstone now) db.sessions);
      own_generations = λ h g found. mirror.generation_kept sid e h g at found;
      own_claims = λ h claimed. mirror.claimed_kept sid e h at claimed;
      other_generations = λ h row held apart. held;
    }

first_death_now :
    (o : Option Timestamp) (now : Timestamp) → o ≡ none → some (first_death o now) ≡ some now
first_death_now none now h = refl
first_death_now (some at) now h = elim (none-some (sym h)) [ ]

tombstone-IsClean :
    (db : Db) (m : SessionMap) (sid : Sid) (now : Timestamp) (e : SessionEntry)
    → Mirrors db m
    → At m sid e
    → is_tombstoned e.status ≡ false
    → IsClean db (tombstone_session db sid now) sid (killed_entry e now)
unfolding tombstone_session all_hashes
tombstone-IsClean db m sid now e mirror at lives = record {
  own_rows = λ h row held owner. mirror.no_more sid e h row at held owner;
  other_rows = λ h row held apart. held;
  own_death = λ s held.
      let (s0, before, agrees) = mirror.covers.session_kept sid e at in
      let alive0 : s0.tombstoned_at ≡ none =
        mirror.death_kept sid e s0 at before ∙ mirror.unmarked sid e at lives in
      let after : get sid (tombstone_session db sid now).sessions ≡ some (with_tombstone now s0) =
        ground (arith, get-update sid sid (with_tombstone now) db.sessions, before) in
      ap (λ (x : StoredSession). x.tombstoned_at) (some-inj s _ (sym held ∙ after))
      ∙ first_death_now s0.tombstoned_at now alive0;
  own_unmarked = λ never. elim (true-false never) [ ];
}

-- A logout, and every other end of a session, sends what keeps the tables a mirror of the map,
-- the instant of the death included.
pub tombstone_session_with_reason-IsCarried :
    (db : Db) (m : SessionMap) (sid : Sid) (now : Timestamp) (reason : KillReason)
    (before : List Types.Command)
    → Mirrors db m
    → m.durability ≡ some before
    → IsCarried db before (tombstone_session_with_reason m sid now reason).0
tombstone_session_with_reason-IsCarried db m sid now reason before mirror queue =
    elim (Option-cases (get sid m.sessions)) [
      | inl missing ↦
          subst (IsCarried db before) (sym (nothing_missing m sid now reason missing))
            (unchanged db before m mirror queue)
      | inr (e, at) ↦ elim (Bool-cases (is_tombstoned e.status)) [
        | inl dead ↦
            subst (IsCarried db before) (sym (nothing_dead m sid now reason e at dead))
              (unchanged db before m mirror queue)
        | inr lives ↦ (
          Types.Command.tombstone_session sid now ∷ [],
          tombstone_session db sid now,
          sent_tombstone m sid now reason e before at lives queue,
          one_tombstone db sid now,
          changed-Mirrors db (tombstone_session db sid now) m _ sid (killed_entry e now) mirror
              (tombstone-IsChange db m sid now reason e mirror.covers at lives)
              (tombstone-IsClean db m sid now e mirror at lives),
        )
      ]
    ]
