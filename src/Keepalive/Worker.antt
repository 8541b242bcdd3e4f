-- ===== src/Keepalive/Worker.antt =====
-- keepalive.rs, `KeepaliveWorker`: one pass over what is due, and what it does with each outcome.
-- The tasks of a pass and the order in which they end are a parameter: the list of what
-- `join_next` yields, with the clock and the jitter of that moment. Metrics are not modelled.
use session_broker.Base.{
  ℕ, ◌+◌, ◌∷◌, [], ◌++◌, Bool, true, false, ◌&&◌, List, Option, none, some, if◌then◌else◌, get,
}
use session_broker.Clock.{Timestamp}
use session_broker.Session.Types.{
  CustodyId, CustodyStatus, ok, degraded, dead, RevocationPolicy, kill, degrade, SessionMap,
}
use session_broker.Session.Kill.{same_status, set_custody_status, tombstone_by_custody}
use session_broker.Keepalive.Scheduler.{
  Jitter, RefreshOutcome, success, transient, permanent, CustodyState, Scheduler, record_outcome,
  take_due,
}

pub data AuditEvent : Type 0 where
  custody_degraded : CustodyId → Timestamp → AuditEvent
  custody_dead : CustodyId → Timestamp → AuditEvent
  custody_revoked_upstream : CustodyId → ℕ → Timestamp → AuditEvent

-- `enqueue_custody_failure`.
pub record CustodyFailure : Type 0 where
  pub custody : CustodyId
  pub status : CustodyStatus
  pub fail_count : ℕ
  pub next_refresh : Timestamp
  pub at : Timestamp

-- `audit` and `writer` are what an attached sink and an attached writer were sent.
pub record Worker : Type 0 where
  pub scheduler : Scheduler
  pub sessions : SessionMap
  pub audit : Option (List AuditEvent)
  pub writer : Option (List CustodyFailure)

-- One result of `join_next`; `none` is a task that panicked.
pub record Joined : Type 0 where
  pub custody : CustodyId
  pub outcome : Option RefreshOutcome
  pub now : Timestamp
  pub jitter : Jitter

abbrev appended {ℓ} : {A : Type ℓ} → A → Option (List A) → Option (List A)
appended a none = none
appended a (some before) = some (before ++ a ∷ [])

abbrev is_permanent : RefreshOutcome → Bool
is_permanent permanent = true
is_permanent (success lifetime rotated) = false
is_permanent (transient retry_after) = false

abbrev is_success : RefreshOutcome → Bool
is_success (success lifetime rotated) = true
is_success (transient retry_after) = false
is_success permanent = false

abbrev is_kill_policy : RevocationPolicy → Bool
is_kill_policy kill = true
is_kill_policy degrade = false

abbrev is_status : Option CustodyState → CustodyStatus → Bool
is_status none status = false
is_status (some before) status = same_status before.status status

unfoldable pub record_transition : Worker → CustodyId → CustodyStatus → Timestamp → Worker
record_transition w c ok now = w
record_transition w c degraded now = record w { audit = appended (custody_degraded c now) w.audit }
record_transition w c dead now = record w { audit = appended (custody_dead c now) w.audit }

unfoldable pub persist_failure : Worker → CustodyId → CustodyStatus → Timestamp → Worker
persist_failure w c status now = elim (get c w.scheduler.entries) [
  | none ↦ w
  | some state ↦ record w {
    writer =
        appended
          (record {
            custody = c;
            status = status;
            fail_count = state.fail_count;
            next_refresh = state.next_refresh;
            at = now;
          })
          w.writer;
  }
]

-- The `if let Some(status)` block.
unfoldable pub propagate :
    Worker → Option CustodyState → CustodyId → RefreshOutcome → CustodyStatus → Timestamp → Worker
unfolding record_transition persist_failure
propagate w before c outcome status now =
    let told = record w { sessions = (set_custody_status w.sessions c status).0 } in
    let noted = if is_status before status then told else record_transition told c status now in
    if is_success outcome then noted else persist_failure noted c status now

unfoldable pub propagate_some :
    Worker
    → Option CustodyState
    → CustodyId
    → RefreshOutcome
    → Option CustodyStatus
    → Timestamp
    → Worker
unfolding propagate
propagate_some w before c outcome none now = w
propagate_some w before c outcome (some status) now = propagate w before c outcome status now

unfoldable pub revoke : Worker → CustodyId → Timestamp → Worker
revoke w c now =
    let (sessions, killed) = tombstone_by_custody w.sessions c now in
    record w {
      sessions = sessions;
      audit = appended (custody_revoked_upstream c killed now) w.audit;
    }

-- The `if permanent` block.
unfoldable pub end_join :
    Worker → CustodyId → RefreshOutcome → RevocationPolicy → Timestamp → Worker
unfolding revoke
end_join w c outcome policy now =
    if is_permanent outcome && is_kill_policy policy then revoke w c now else w

-- The body of the `while let`, for a task that ended.
unfoldable pub apply_outcome : Worker → CustodyId → RefreshOutcome → Timestamp → Jitter → Worker
unfolding propagate_some end_join
apply_outcome w c outcome now j =
    let before = get c w.scheduler.entries in
    let (scheduler, status) = record_outcome w.scheduler c outcome now j in
    let known = propagate_some (record w { scheduler = scheduler }) before c outcome status now in
    end_join known c outcome scheduler.policy.on_upstream_revoked now

unfoldable pub join : Worker → Joined → Worker × ℕ
unfolding apply_outcome
join w r = elim r.outcome [
  | none ↦ (w, 0)
  | some outcome ↦ (apply_outcome w r.custody outcome r.now r.jitter, 1)
]

unfoldable pub join_all : Worker → List Joined → Worker × ℕ
unfolding join
join_all w [] = (w, 0)
join_all w (r ∷ rs) =
    let (w', handled) = join w r in let (w'', more) = join_all w' rs in (w'', handled + more)

unfoldable pub tick : Worker → Timestamp → List Joined → Worker × ℕ
unfolding join_all
tick w now results =
    let (scheduler, due) = take_due w.scheduler now in
    elim due [
      | [] ↦ (record w { scheduler = scheduler }, 0)
      | c ∷ cs ↦ join_all (record w { scheduler = scheduler }) results
    ]
