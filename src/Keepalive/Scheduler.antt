-- ===== src/Keepalive/Scheduler.antt =====
-- keepalive.rs, `Scheduler`: its state and operations. The two fractions of the policy and the
-- jitter are floating point and random, so that what a call draws from them is a parameter of
-- it. The heap is the list of its elements, earliest first.
use session_broker.Base.{
  ℕ, ◌+◌, ◌-◌, ◌*◌, ◌^◌, ◌∷◌, [], Bool, true, false, ◌||◌, ◌&&◌, not, List, Option, none, some, min,
  max, leb, ltb, if◌then◌else◌, get, insert, remove, ◌==◌,
}
use session_broker.Clock.{Timestamp, plus_secs}
use session_broker.Session.Types.{CustodyId, CustodyStatus, ok, degraded, dead, RevocationPolicy}

pub record KeepalivePolicy : Type 0 where
  pub base_backoff_secs : ℕ
  pub max_backoff_secs : ℕ
  pub max_concurrent : ℕ
  pub on_upstream_revoked : RevocationPolicy

pub data RefreshOutcome : Type 0 where
  success : ℕ → Bool → RefreshOutcome
  transient : Option ℕ → RefreshOutcome
  permanent : RefreshOutcome

-- One draw: `spread lifetime` is `(lead + displacement) as u64`, and `full secs` is
-- `(secs as f64 * unit) as u64`.
pub record Jitter : Type 0 where
  pub spread : ℕ → ℕ
  pub full : ℕ → ℕ

pub record CustodyState : Type 0 where
  pub status : CustodyStatus
  pub access_exp : Timestamp
  pub next_refresh : Timestamp
  pub fail_count : ℕ  -- u32
  pub refreshing : Bool

pub record Scheduler : Type 0 where
  pub policy : KeepalivePolicy
  pub entries : List (ℕ × CustodyState)
  pub due : List (Timestamp × CustodyId)

unfoldable pub new : KeepalivePolicy → Scheduler
new policy = record { policy = policy; entries = []; due = [] }

unfoldable pub is_dead : CustodyStatus → Bool
is_dead ok = false
is_dead degraded = false
is_dead dead = true

-- `due.push`, by the order of the pairs.
unfoldable pub push :
    Timestamp → CustodyId → List (Timestamp × CustodyId) → List (Timestamp × CustodyId)
push at c [] = (at, c) ∷ []
push at c ((t, d) ∷ due) =
    if ltb at t || (at == t) && leb c d then (at, c) ∷ (t, d) ∷ due else (t, d) ∷ push at c due

unfoldable pub next_refresh_at : Jitter → Timestamp → ℕ → Timestamp
next_refresh_at j issued_at lifetime_secs = plus_secs issued_at (max (j.spread lifetime_secs) 1)

unfoldable pub backoff_secs : KeepalivePolicy → ℕ → Option ℕ → Jitter → ℕ
backoff_secs p fail_count (some secs) j = min secs p.max_backoff_secs
backoff_secs p fail_count none j =
    let exponential =
      min (min (p.base_backoff_secs * 2 ^ min fail_count 16) (2 ^ 64 - 1)) p.max_backoff_secs in
    max (j.full exponential) 1

unfoldable pub schedule : Scheduler → CustodyId → CustodyState → Scheduler
unfolding push
schedule s c state = record s {
  entries = insert c state s.entries;
  due = push state.next_refresh c s.due;
}

unfoldable pub insert_issued : Scheduler → CustodyId → Timestamp → ℕ → Jitter → Scheduler
unfolding schedule next_refresh_at
insert_issued s c issued_at lifetime_secs j = schedule s c (record {
  status = ok;
  access_exp = plus_secs issued_at lifetime_secs;
  next_refresh = next_refresh_at j issued_at lifetime_secs;
  fail_count = 0;
  refreshing = false;
})

unfoldable pub insert_restored :
    Scheduler → CustodyId → CustodyStatus → Timestamp → Timestamp → Scheduler
unfolding schedule
insert_restored s c status access_exp next_refresh = schedule s c (record {
  status = status;
  access_exp = access_exp;
  next_refresh = next_refresh;
  fail_count = 0;
  refreshing = false;
})

unfoldable pub remove_custody : Scheduler → CustodyId → Scheduler
remove_custody s c = record s { entries = remove c s.entries }

-- Whether `take_due` hands out a custody that it popped.
unfoldable pub is_ready : Timestamp → CustodyState → Bool
unfolding is_dead
is_ready now state =
    if ltb now state.next_refresh then false else not (state.refreshing || is_dead state.status)

abbrev pub in_flight : CustodyState → CustodyState
in_flight state = record state { refreshing = true }

-- One turn of the loop: whether the custody is taken, and the entries after it.
unfoldable pub take_one :
    Timestamp → CustodyId → List (ℕ × CustodyState) → Bool × List (ℕ × CustodyState)
take_one now c es = elim (get c es) [
  | none ↦ (false, es)
  | some state ↦ if is_ready now state then (true, insert c (in_flight state) es) else (false, es)
]

pub record Taken : Type 0 where
  pub ready : List CustodyId
  pub rest : List (Timestamp × CustodyId)
  pub marked : List (ℕ × CustodyState)

-- The loop of `take_due` on the heap and the entries.
unfoldable pub drain : Timestamp → List (Timestamp × CustodyId) → List (ℕ × CustodyState) → Taken
drain now [] es = record { ready = []; rest = []; marked = es }
drain now ((at, c) ∷ due) es =
    let one = take_one now c es in
    let later = drain now due one.1 in
    if leb at now
    then (if one.0 then record later { ready = c ∷ later.ready } else later)
    else record { ready = []; rest = (at, c) ∷ due; marked = es }

unfoldable pub take_due : Scheduler → Timestamp → Scheduler × List CustodyId
unfolding drain
take_due s now =
    let t = drain now s.due s.entries in (record s { entries = t.marked; due = t.rest }, t.ready)

-- The earliest `next_refresh` of all entries.
unfoldable pub next_deadline : List (ℕ × CustodyState) → Option Timestamp
next_deadline [] = none
next_deadline ((c, state) ∷ es) = elim (next_deadline es) [
  | none ↦ some state.next_refresh
  | some t ↦ some (min state.next_refresh t)
]

unfoldable pub health : CustodyState → Timestamp → CustodyStatus
health state now = if leb state.access_exp now then degraded else ok

unfoldable pub after_success : CustodyState → ℕ → Timestamp → Jitter → CustodyState
unfolding next_refresh_at
after_success state lifetime_secs now j = record {
  status = ok;
  access_exp = plus_secs now lifetime_secs;
  next_refresh = next_refresh_at j now lifetime_secs;
  fail_count = 0;
  refreshing = false;
}

unfoldable pub after_failure :
    KeepalivePolicy → CustodyState → Option ℕ → Timestamp → Jitter → CustodyState
unfolding health
after_failure p state retry_after now j =
    let fails = min (state.fail_count + 1) (2 ^ 32 - 1) in
    record {
      status = health state now;
      access_exp = state.access_exp;
      next_refresh = plus_secs now (backoff_secs p (fails - 1) retry_after j);
      fail_count = fails;
      refreshing = false;
    }

unfoldable pub after_revocation : CustodyState → Timestamp → CustodyState
after_revocation state now = record state { status = dead; next_refresh = now; refreshing = false }

unfoldable pub settle :
    Scheduler
    → CustodyId
    → CustodyState
    → RefreshOutcome
    → Timestamp
    → Jitter
    → Scheduler × CustodyStatus
unfolding schedule after_success after_failure after_revocation
settle s c state (success lifetime_secs rotated_refresh) now j =
    (schedule s c (after_success state lifetime_secs now j), ok)
settle s c state (transient retry_after) now j =
    let next = after_failure s.policy state retry_after now j in (schedule s c next, next.status)
settle s c state permanent now j =
    (record s { entries = insert c (after_revocation state now) s.entries }, dead)

-- `record`.
unfoldable pub record_outcome :
    Scheduler → CustodyId → RefreshOutcome → Timestamp → Jitter → Scheduler × Option CustodyStatus
unfolding settle
record_outcome s c outcome now j = elim (get c s.entries) [
  | none ↦ (s, none)
  | some state ↦ let r = settle s c state outcome now j in (r.0, some r.1)
]
