-- ===== src/Keepalive/Revocation.antt =====
-- What a pass of the worker does when the identity provider revokes a grant.
use mathlib.Core.Path.{subst}
use session_broker.Base.{
  ℕ, ◌≡◌, refl, ap, sym, ◌∙◌, false, List, Option, some, arith, get, insert, get-insert, count, inl,
  inr, Option-cases,
}
use session_broker.Clock.{Timestamp}
use session_broker.Session.Types.{
  Sid, CustodyId, CustodyStatus, ok, degraded, dead, TokenHash, SessionEntry, SessionMap,
  RevocationPolicy,
}
use session_broker.Session.Kill.{set_custody_status, tombstone_by_custody, with_status}
use session_broker.Session.Consistent.{At, IsConsistent}
use session_broker.Session.Health.{
  updated, updated-At, updated_rest, custody-with_status, set_custody_status-IsConsistent,
}
use session_broker.Session.Logout.{LoggedOut, tombstone_by_custody-resolve}
use session_broker.Keepalive.Scheduler.{
  Jitter, RefreshOutcome, permanent, CustodyState, Scheduler, record_outcome, settle,
  after_revocation, take_due, is_ready, is_dead,
}
use session_broker.Keepalive.Duty.{IsApart, apart-take_due}
use session_broker.Keepalive.Worker.{
  Worker, record_transition, persist_failure, propagate, propagate_some, revoke, end_join,
  apply_outcome, join,
}

record_transition_rest :
    (w : Worker) (c : CustodyId) (status : CustodyStatus) (now : Timestamp)
    → let w' = record_transition w c status now in
      (w'.sessions ≡ w.sessions) × (w'.scheduler ≡ w.scheduler)
unfolding record_transition
record_transition_rest w c ok now = (refl, refl)
record_transition_rest w c degraded now = (refl, refl)
record_transition_rest w c dead now = (refl, refl)

persist_failure_rest :
    (w : Worker) (c : CustodyId) (status : CustodyStatus) (now : Timestamp)
    → let w' = persist_failure w c status now in
      (w'.sessions ≡ w.sessions) × (w'.scheduler ≡ w.scheduler)
unfolding persist_failure
persist_failure_rest w c status now = elim (Option-cases (get c w.scheduler.entries)) [
  | inl missing ↦ rw (missing, persist_failure) (refl, refl)
  | inr (state, at) ↦ rw (at, persist_failure) (refl, refl)
]

propagate_rest :
    (w : Worker) (before : Option CustodyState) (c : CustodyId) (outcome : RefreshOutcome)
    (status : CustodyStatus) (now : Timestamp)
    → let w' = propagate w before c outcome status now in
      (w'.sessions ≡ (set_custody_status w.sessions c status).0) × (w'.scheduler ≡ w.scheduler)
unfolding propagate
propagate_rest w before c outcome status now =
    let told = record w { sessions = (set_custody_status w.sessions c status).0 } in
    let noted = record_transition told c status now in
    ground (
      arith,
      record_transition_rest told c status now,
      persist_failure_rest told c status now,
      persist_failure_rest noted c status now,
    )

end_join-kill :
    (w : Worker) (c : CustodyId) (now : Timestamp)
    → end_join w c permanent RevocationPolicy.kill now ≡ revoke w c now
unfolding end_join
end_join-kill w c now = refl

dead-is_ready :
    (now : Timestamp) (state : CustodyState) → state.status ≡ dead → is_ready now state ≡ false
unfolding is_ready is_dead
dead-is_ready now state gone = ground arith

revoked_at :
    (c : CustodyId) (state : CustodyState) (now : Timestamp) (es : List (ℕ × CustodyState))
    → get c (insert c (after_revocation state now) es) ≡ some (after_revocation state now)
revoked_at c state now es = ground (arith, get-insert c c (after_revocation state now) es)

revoked_status :
    (state : CustodyState) (now : Timestamp) → (after_revocation state now).status ≡ dead
unfolding after_revocation
revoked_status state now = refl

record_outcome-permanent :
    (s : Scheduler) (c : CustodyId) (state : CustodyState) (now : Timestamp) (j : Jitter)
    → get c s.entries ≡ some state
    → record_outcome s c permanent now j
      ≡ (record s { entries = insert c (after_revocation state now) s.entries }, some dead)
unfolding record_outcome settle
record_outcome-permanent s c state now j at = rw (at, record_outcome) refl

-- The worker after a revocation, before the sessions are killed.
abbrev noted : Worker → CustodyId → CustodyState → Timestamp → Worker
noted w c state now =
    propagate
      (record w {
        scheduler = record (w.scheduler) {
          entries = insert c (after_revocation state now) w.scheduler.entries;
        };
      })
      (some state) c permanent dead now

apply_outcome-permanent :
    (w : Worker) (c : CustodyId) (state : CustodyState) (now : Timestamp) (j : Jitter)
    → get c w.scheduler.entries ≡ some state
    → w.scheduler.policy.on_upstream_revoked ≡ RevocationPolicy.kill
    → apply_outcome w c permanent now j ≡ revoke (noted w c state now) c now
unfolding apply_outcome propagate_some
apply_outcome-permanent w c state now j at policy =
    let opened : apply_outcome w c permanent now j
        ≡ end_join (noted w c state now) c permanent w.scheduler.policy.on_upstream_revoked now =
      rw (record_outcome-permanent w.scheduler c state now j at, at) refl in
    opened
    ∙ ap (λ (p : RevocationPolicy). end_join (noted w c state now) c permanent p now) policy
    ∙ end_join-kill (noted w c state now) c now

-- When the identity provider revokes a grant and the policy is `kill`, the worker that joins the
-- refresh logs out every session on it, so that each of their cookies is refused from then on,
-- and no later pass of the scheduler hands the grant out, however many passes and calls on other
-- custodies lie between. The scheduler holds the custody and the session map is consistent. Calls
-- on the custody itself are excluded: an outcome recorded for it, an insertion, a removal.
pub join-LoggedOut :
    (w : Worker) (c : CustodyId) (state : CustodyState) (sid : Sid) (e : SessionEntry)
    (h : TokenHash) (now later : Timestamp) (j : Jitter) (t : Scheduler)
    → get c w.scheduler.entries ≡ some state
    → w.scheduler.policy.on_upstream_revoked ≡ RevocationPolicy.kill
    → IsConsistent w.sessions
    → At w.sessions sid e
    → e.custody ≡ c
    → get h w.sessions.index ≡ some sid
    → IsApart c
        (join w
          (record { custody = c; outcome = some permanent; now = now; jitter = j })).0.scheduler
        t
    → let w' =
        (join w (record { custody = c; outcome = some permanent; now = now; jitter = j })).0 in
      LoggedOut w'.sessions sid h × (count c (take_due t later).1 ≡ 0)
unfolding join revoke
join-LoggedOut w c state sid e h now later j t at policy con here own known path =
    let rest =
      propagate_rest
        (record w {
          scheduler = record (w.scheduler) {
            entries = insert c (after_revocation state now) w.scheduler.entries;
          };
        })
        (some state) c permanent dead now in
    let e' = with_status c dead e in
    let out : LoggedOut (tombstone_by_custody (updated c dead w.sessions) c now).0 sid h =
      tombstone_by_custody-resolve (updated c dead w.sessions) c sid e' h now
        (set_custody_status-IsConsistent c dead w.sessions con)
        (updated-At c dead w.sessions sid e here) (custody-with_status c dead e ∙ own)
        (rw ((updated_rest c dead w.sessions).0) known) in
    let gone : get c (noted w c state now).scheduler.entries ≡ some (after_revocation state now) =
      ap (λ (s : Scheduler). get c s.entries) rest.1 ∙ revoked_at c state now w.scheduler.entries in
    let same = apply_outcome-permanent w c state now j at policy in
    (
      subst (λ (x : Worker). LoggedOut x.sessions sid h) (sym same)
          (subst (λ (m : SessionMap). LoggedOut (tombstone_by_custody m c now).0 sid h) (sym rest.0)
            out),
      apart-take_due (noted w c state now).scheduler t c (after_revocation state now) later gone
          (λ at_time. dead-is_ready at_time (after_revocation state now) (revoked_status state now))
          (subst (λ (x : Worker). IsApart c x.scheduler t) same path),
    )
