-- ===== src/Session/Logout.antt =====
-- Logout (`tombstone_session`) and upstream revocation (`tombstone_by_custody`), as clients see them.
use session_broker.Base.{
  ℕ, ◌≡◌, ◌≢◌, ◌⊎◌, refl, ◌∙◌, ◌∷◌, [], true, false, List, some, In, arith, get, inl, inr,
  Bool-cases,
}
use session_broker.Clock.{Timestamp}
use session_broker.Session.Types.{
  Sid, CustodyId, TokenHash, SessionToken, SessionPolicy, SessionEntry, SessionMap, RefreshDenied,
  Resolution, KillReason, ExpiredReason,
}
use session_broker.Session.Entry.{classify, session_expiry, is_tombstoned}
use session_broker.Session.Map.{resolve, entry_for, sid_for_hash}
use session_broker.Session.Refresh.{refresh, refresh_entry, denied}
use session_broker.Session.Kill.{tombstone_session, tombstone_by_custody, live_sids}
use session_broker.Session.Consistent.{At, IsConsistent}
use session_broker.Session.Refreshing.{resolve_found, refresh_found}
use session_broker.Session.Killing.{
  IsDead, kill-IsDead, kill-IsConsistent, kills-IsConsistent, kill_at, kill_rest, kills_rest,
  kills-IsDead,
}

classify_dead :
    (e : SessionEntry) (h : TokenHash) (now : Timestamp) (p : SessionPolicy)
    → is_tombstoned e.status ≡ true
    → classify e h now p ≡ Resolution.hard_expired e.sid ExpiredReason.logged_out
unfolding classify session_expiry
classify_dead e h now p dead = ground arith

-- The verdict and the refresh of every token of the session: it is logged out, for good.
abbrev pub LoggedOut : SessionMap → Sid → TokenHash → Type 0
LoggedOut m sid h =
    (hash : SessionToken → TokenHash) (fresh : SessionToken) (later : Timestamp)
    → (resolve m h later ≡ Resolution.hard_expired sid ExpiredReason.logged_out)
      × (refresh hash fresh m h later ≡ denied (RefreshDenied.expired sid ExpiredReason.logged_out))

dead-LoggedOut :
    (m : SessionMap) (sid : Sid) (h : TokenHash)
    → ((e : SessionEntry) → At m sid e → e.sid ≡ sid)
    → IsDead m sid
    → get h m.index ≡ some sid
    → LoggedOut m sid h
unfolding refresh_entry
dead-LoggedOut m sid h named (e, at, dead) q hash fresh later =
    let verdict = classify_dead e h later m.policy dead in
    (
      resolve_found hash fresh m later h sid e q at ∙ verdict ∙ rw (named e at),
      refresh_found hash fresh m later h sid e q at ∙ rw (verdict, refresh_entry) (rw (named e at)),
    )

-- On a consistent map, after a logout every cookie of the session is refused as logged out, whichever generation it
-- carries and however late it comes, by `resolve` and by `refresh`; a session that was killed
-- before stays so.
pub tombstone_session-resolve :
    (m : SessionMap) (sid : Sid) (e : SessionEntry) (h : TokenHash) (now : Timestamp)
    → IsConsistent m
    → At m sid e
    → get h m.index ≡ some sid
    → LoggedOut (tombstone_session m sid now).0 sid h
unfolding tombstone_session
tombstone_session-resolve m sid e h now c at q =
    let r = KillReason.logged_out in
    let after = kill-IsConsistent now r m sid c in
    dead-LoggedOut _ sid h (after.named sid) (kill-IsDead now r m sid sid e at (inl refl))
      (rw ((kill_rest now r m sid).0) q)

-- A logout changes no answer of `resolve` about a cookie of another session.
pub tombstone_session_other :
    (m : SessionMap) (sid k : Sid) (h : TokenHash) (now t : Timestamp)
    → sid ≢ k
    → get h m.index ≡ some k
    → resolve (tombstone_session m sid now).0 h t ≡ resolve m h t
unfolding tombstone_session resolve entry_for sid_for_hash
tombstone_session_other m sid k h now t other q =
    let r = KillReason.logged_out in ground (arith, kill_at now r m sid k, kill_rest now r m sid)

get-In-live_sids :
    (custody : CustodyId) (es : List (ℕ × SessionEntry)) (sid : Sid) (e : SessionEntry)
    → get sid es ≡ some e
    → e.custody ≡ custody
    → is_tombstoned e.status ≡ false
    → In e.sid (live_sids custody es)
unfolding get live_sids
get-In-live_sids custody [] sid e g own alive = cc
get-In-live_sids custody ((k, x) ∷ es) sid e g own alive =
    ground (arith, get-In-live_sids custody es sid e)

-- On a consistent map, `tombstone_by_custody` logs out every session that the grant backs: each
-- of their cookies is refused as logged out from then on, by `resolve` and by `refresh`.
pub tombstone_by_custody-resolve :
    (m : SessionMap) (custody : CustodyId) (sid : Sid) (e : SessionEntry) (h : TokenHash)
    (now : Timestamp)
    → IsConsistent m
    → At m sid e
    → e.custody ≡ custody
    → get h m.index ≡ some sid
    → LoggedOut (tombstone_by_custody m custody now).0 sid h
unfolding tombstone_by_custody
tombstone_by_custody-resolve m custody sid e h now c at own q =
    let r = KillReason.upstream_revoked in
    let sids = live_sids custody m.sessions in
    let after = kills-IsConsistent now r m sids c in
    let listed : In sid sids ⊎ (is_tombstoned e.status ≡ true) =
      elim (Bool-cases (is_tombstoned e.status)) [
        | inl dead ↦ inr dead
        | inr alive ↦
            inl (rw (c.named sid e at) at (get-In-live_sids custody m.sessions sid e at own alive))
      ] in
    dead-LoggedOut _ sid h (after.named sid) (kills-IsDead now r m sids sid e at listed)
      (rw ((kills_rest now r m sids).0) q)
