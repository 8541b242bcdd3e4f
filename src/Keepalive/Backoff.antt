-- ===== src/Keepalive/Backoff.antt =====
-- What `record` does of a failed refresh, and how long the custody waits.
use session_broker.Base.{
  ℕ, ◌+◌, ◌-◌, ◌≤◌, ◌<◌, ◌≡◌, false, Option, none, some, leb, min, max, ◌^◌, ◌*◌, if◌then◌else◌,
  get, get-insert, refl, arith,
}
use session_broker.Clock.{Timestamp, plus_secs, last_instant}
use session_broker.Session.Types.{CustodyId, ok, degraded}
use session_broker.Keepalive.Scheduler.{
  CustodyState, Scheduler, Jitter, transient, schedule, settle, record_outcome, after_failure,
  backoff_secs, KeepalivePolicy, health,
}

-- `base_backoff_secs * 2^n` seconds, `n` the failures before this one and 16 at most, capped by
-- `max_backoff_secs`.
abbrev pub ceiling : KeepalivePolicy → ℕ → ℕ
ceiling p n = min (p.base_backoff_secs * 2 ^ min n 16) p.max_backoff_secs

backoff_secs-jitter :
    (p : KeepalivePolicy) (n : ℕ) (j : Jitter)
    → ((e : ℕ) → j.full e ≤ e)
    → p.max_backoff_secs < 2 ^ 64
    → (1 ≤ backoff_secs p n none j) × (backoff_secs p n none j ≤ max (ceiling p n) 1)
unfolding backoff_secs
backoff_secs-jitter p n j below small =
    let e = min (min (p.base_backoff_secs * 2 ^ min n 16) (2 ^ 64 - 1)) p.max_backoff_secs in
    (omega arith, omega (arith, below e))

record_outcome-at :
    (s : Scheduler) (c : CustodyId) (state : CustodyState) (retry_after : Option ℕ)
    (now : Timestamp) (j : Jitter)
    → get c s.entries ≡ some state
    → let next = after_failure s.policy state retry_after now j in
      let r = record_outcome s c (transient retry_after) now j in
      (get c r.0.entries ≡ some next) × (r.1 ≡ some next.status)
unfolding record_outcome settle schedule
record_outcome-at s c state retry_after now j at =
    let next = after_failure s.policy state retry_after now j in
    rw (at, record_outcome) (ground (arith, get-insert c c next s.entries), refl)

after_failure-next_refresh :
    (p : KeepalivePolicy) (state : CustodyState) (now : Timestamp) (j : Jitter)
    → ((e : ℕ) → j.full e ≤ e)
    → p.max_backoff_secs < 2 ^ 63
    → state.fail_count < 2 ^ 32 - 1
    → now + max p.max_backoff_secs 1 ≤ last_instant
    → let next = after_failure p state none now j in
      (now < next.next_refresh) × (next.next_refresh ≤ now + max (ceiling p state.fail_count) 1)
unfolding after_failure plus_secs
after_failure-next_refresh p state now j below small few room =
    let fails : min (state.fail_count + 1) (2 ^ 32 - 1) - 1 ≡ state.fail_count = omega arith in
    let bound = backoff_secs-jitter p state.fail_count j below (omega arith) in
    rw (fails) (ground (arith, bound))

-- A refresh that failed and may be retried, and came with no `Retry-After`: the custody leaves
-- flight, is `degraded` exactly if its access token has expired by `now`, and that is the status
-- returned; the next try is later than `now`, by at most `base * 2^n` seconds with `n` the
-- failures before (16 at most), capped by `max_backoff_secs`, and by one second if that is 0.
-- The conditions: the draw from `[0, e]` is at most `e`, fewer than 2^32 - 1 failures, a cap
-- below 2^63, and an instant that the cap does not carry over `i64::MAX`.
pub record_outcome-transient :
    (s : Scheduler) (c : CustodyId) (state : CustodyState) (now : Timestamp) (j : Jitter)
    → get c s.entries ≡ some state
    → ((e : ℕ) → j.full e ≤ e)
    → s.policy.max_backoff_secs < 2 ^ 63
    → state.fail_count < 2 ^ 32 - 1
    → now + max s.policy.max_backoff_secs 1 ≤ last_instant
    → let r = record_outcome s c (transient none) now j in
      (next : CustodyState) × (get c r.0.entries ≡ some next)
      × (r.1 ≡ some next.status)
      × (next.status ≡ (if leb state.access_exp now then degraded else ok))
      × (next.refreshing ≡ false)
      × (next.fail_count ≡ state.fail_count + 1)
      × (now < next.next_refresh)
      × (next.next_refresh ≤ now + max (ceiling s.policy state.fail_count) 1)
unfolding after_failure health
record_outcome-transient s c state now j at below small few room =
    let r = record_outcome-at s c state none now j at in
    let wait = after_failure-next_refresh s.policy state now j below small few room in
    (after_failure s.policy state none now j, r.0, r.1, refl, refl, omega arith, wait.0, wait.1)
