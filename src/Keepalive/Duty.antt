-- ===== src/Keepalive/Duty.antt =====
-- The scheduler of keepalive.rs over any sequence of its operations.
use session_broker.Base.{
  none-some, not_both, some-inj, true-false, ℕ, ◌≤◌, ◌≡◌, [], Bool, true, false, List, none, some,
  if◌then◌else◌, get, insert, get-insert, remove, get-remove, ◌==◌, ◌∙◌, sym, ap, refl, inl, inr,
  Bool-cases, Option-cases, count, arith,
}
use session_broker.Clock.{Timestamp}
use session_broker.Session.Types.{CustodyId, CustodyStatus}
use session_broker.Keepalive.Scheduler.{
  CustodyState, Scheduler, Jitter, RefreshOutcome, success, transient, permanent, is_ready, drain,
  take_due, schedule, settle, record_outcome, insert_issued, insert_restored, remove_custody, new,
  KeepalivePolicy,
}
use session_broker.Keepalive.Taking.{drain-IsHandled, drain-ready, drain-rest}
use session_broker.Keepalive.Scheduled.{
  IsScheduled, is_waiting, schedule-IsScheduled, record_outcome-IsScheduled, remove-IsScheduled,
  take_due-IsScheduled,
}

-- One call on a scheduler.
pub data IsStep : Scheduler → Scheduler → Type 0 where
  issued :
      (s : Scheduler) (c : CustodyId) (issued_at : Timestamp) (lifetime_secs : ℕ) (j : Jitter)
      → IsStep s (insert_issued s c issued_at lifetime_secs j)
  restored :
      (s : Scheduler) (c : CustodyId) (status : CustodyStatus) (access_exp next_refresh : Timestamp)
      → IsStep s (insert_restored s c status access_exp next_refresh)
  removed : (s : Scheduler) (c : CustodyId) → IsStep s (remove_custody s c)
  taken : (s : Scheduler) (now : Timestamp) → IsStep s (take_due s now).0
  recorded :
      (s : Scheduler) (c : CustodyId) (outcome : RefreshOutcome) (now : Timestamp) (j : Jitter)
      → IsStep s (record_outcome s c outcome now j).0

pub data IsReachable (p : KeepalivePolicy) : Scheduler → Type 0 where
  start : IsReachable p (new p)
  next : (s t : Scheduler) → IsReachable p s → IsStep s t → IsReachable p t

step-IsScheduled : (s t : Scheduler) → IsStep s t → IsScheduled s → IsScheduled t
unfolding insert_issued insert_restored
step-IsScheduled _ _ (issued s c issued_at lifetime j) h = schedule-IsScheduled s c _ h
step-IsScheduled _ _ (restored s c status access_exp next_refresh) h = schedule-IsScheduled s c _ h
step-IsScheduled _ _ (removed s c) h = remove-IsScheduled s c h
step-IsScheduled _ _ (taken s now) h = take_due-IsScheduled s now h
step-IsScheduled _ _ (recorded s c outcome now j) h = record_outcome-IsScheduled s c outcome now j h

pub reachable-IsScheduled : (p : KeepalivePolicy) (s : Scheduler) → IsReachable p s → IsScheduled s
unfolding new get
reachable-IsScheduled p s start = (tt, λ c state found waiting. elim (none-some found) [ ])
reachable-IsScheduled p _ (next s t before step) =
    step-IsScheduled s t step (reachable-IsScheduled p s before)

-- Whether a custody is to be refreshed at `now`: it has an entry that has come due, is not in
-- flight and is not dead.
unfoldable pub is_due : Scheduler → CustodyId → Timestamp → Bool
is_due s c now = elim (get c s.entries) [ none ↦ false | some state ↦ is_ready now state ]

unfoldable pub times : Bool → ℕ
times b = if b then 1 else 0

is_ready-is_waiting :
    (now : Timestamp) (state : CustodyState)
    → is_ready now state ≡ true
    → (is_waiting state ≡ true) × (state.next_refresh ≤ now)
unfolding is_ready is_waiting
is_ready-is_waiting now state ready = ground arith

busy-is_ready :
    (now : Timestamp) (state : CustodyState) → state.refreshing ≡ true → is_ready now state ≡ false
unfolding is_ready
busy-is_ready now state busy = ground arith

get-insert_other :
    (d c : CustodyId) (state : CustodyState) (es : List (ℕ × CustodyState))
    → (d == c) ≡ false
    → get c (insert d state es) ≡ get c es
get-insert_other d c state es apart = ground (arith, get-insert d c state es)

get-remove_other :
    (d c : CustodyId) (es : List (ℕ × CustodyState))
    → (d == c) ≡ false
    → get c (remove d es) ≡ get c es
get-remove_other d c es apart = ground (arith, get-remove d c es)

settle-other :
    (s : Scheduler) (c d : CustodyId) (state : CustodyState) (outcome : RefreshOutcome)
    (now : Timestamp) (j : Jitter)
    → (d == c) ≡ false
    → get c (settle s d state outcome now j).0.entries ≡ get c s.entries
unfolding settle schedule
settle-other s c d state (success lifetime rotated) now j apart =
    get-insert_other d c _ s.entries apart
settle-other s c d state (transient retry_after) now j apart =
    get-insert_other d c _ s.entries apart
settle-other s c d state permanent now j apart = get-insert_other d c _ s.entries apart

take_due-count :
    (s : Scheduler) (c : CustodyId) (now : Timestamp)
    → IsScheduled s
    → count c (take_due s now).1 ≡ times (is_due s c now)
unfolding take_due times is_due
take_due-count s c now (sorted, listed) = elim (drain-IsHandled now c s.due s.entries) [
  | inr (once, (old, at, ready, marked)) ↦ rw (at, is_due, ready) once
  | inl (passed, kept) ↦ elim (Option-cases (get c s.entries)) [
    | inl missing ↦ rw (missing, is_due) passed
    | inr (state, at) ↦ elim (Bool-cases (is_ready now state)) [
      | inr unready ↦ rw (at, is_due, unready) passed
      | inl ready ↦
          let waits = is_ready-is_waiting now state ready in
          let once =
            drain-ready now state.next_refresh c s.due s.entries state sorted
              (listed c state at waits.0) waits.1 at ready in
          elim (not_both (count c (drain now s.due s.entries).ready) once passed) [ ]
    ]
  ]
]

-- In every state that the operations reach, `take_due` at `now` hands out each custody exactly
-- once if it has an entry that has come due, is not in flight and is not dead, and not at all
-- otherwise; and a second call at `now` hands out nothing.
pub take_due-exact :
    (p : KeepalivePolicy) (s : Scheduler) (c : CustodyId) (now : Timestamp)
    → IsReachable p s
    → (count c (take_due s now).1 ≡ times (is_due s c now))
      × ((take_due (take_due s now).0 now).1 ≡ [])
unfolding take_due
take_due-exact p s c now reached = (
  take_due-count s c now (reachable-IsScheduled p s reached),
  drain-rest now s.due s.entries (drain now s.due s.entries).marked,
)

-- Any sequence of the calls that are not about one custody: all calls on others, and `take_due`.
pub data IsApart (c : CustodyId) : Scheduler → Scheduler → Type 0 where
  stay : (s : Scheduler) → IsApart c s s
  issued :
      (s t : Scheduler) (d : CustodyId) (issued_at : Timestamp) (lifetime_secs : ℕ) (j : Jitter)
      → IsApart c s t
      → (d == c) ≡ false
      → IsApart c s (insert_issued t d issued_at lifetime_secs j)
  restored :
      (s t : Scheduler) (d : CustodyId) (status : CustodyStatus)
      (access_exp next_refresh : Timestamp)
      → IsApart c s t
      → (d == c) ≡ false
      → IsApart c s (insert_restored t d status access_exp next_refresh)
  removed :
      (s t : Scheduler) (d : CustodyId)
      → IsApart c s t
      → (d == c) ≡ false
      → IsApart c s (remove_custody t d)
  taken : (s t : Scheduler) (now : Timestamp) → IsApart c s t → IsApart c s (take_due t now).0
  recorded :
      (s t : Scheduler) (d : CustodyId) (outcome : RefreshOutcome) (now : Timestamp) (j : Jitter)
      → IsApart c s t
      → (d == c) ≡ false
      → IsApart c s (record_outcome t d outcome now j).0

-- Nobody hands the custody out, whenever they look.
abbrev pub NeverReady : CustodyState → Type 0
NeverReady state = (now : Timestamp) → is_ready now state ≡ false

unready :
    (now : Timestamp) (state old : CustodyState)
    → some state ≡ some old
    → NeverReady state
    → is_ready now old ≡ true
    → ⊥
unready now state old same never ready =
    true-false (sym ready ∙ sym (ap (is_ready now) (some-inj state old same)) ∙ never now)

take_due-NeverReady :
    (s : Scheduler) (c : CustodyId) (state : CustodyState) (now : Timestamp)
    → get c s.entries ≡ some state
    → NeverReady state
    → (count c (take_due s now).1 ≡ 0) × (get c (take_due s now).0.entries ≡ some state)
unfolding take_due
take_due-NeverReady s c state now at never = elim (drain-IsHandled now c s.due s.entries) [
  | inl (passed, kept) ↦ (passed, kept ∙ at)
  | inr (once, (old, found, ready, marked)) ↦
      elim (unready now state old (sym at ∙ found) never ready) [ ]
]

record_outcome-other :
    (s : Scheduler) (c d : CustodyId) (outcome : RefreshOutcome) (now : Timestamp) (j : Jitter)
    → (d == c) ≡ false
    → get c (record_outcome s d outcome now j).0.entries ≡ get c s.entries
unfolding record_outcome
record_outcome-other s c d outcome now j apart = elim (Option-cases (get d s.entries)) [
  | inl missing ↦ rw (missing, record_outcome) refl
  | inr (state, at) ↦ rw (at, record_outcome) (settle-other s c d state outcome now j apart)
]

pub stays-NeverReady :
    (c : CustodyId) (state : CustodyState) (s t : Scheduler)
    → get c s.entries ≡ some state
    → NeverReady state
    → IsApart c s t
    → get c t.entries ≡ some state
unfolding insert_issued insert_restored remove_custody schedule
stays-NeverReady c state _ _ at never (stay s) = at
stays-NeverReady c state _ _ at never (issued s t d issued_at lifetime j path apart) =
    get-insert_other d c _ t.entries apart ∙ stays-NeverReady c state s t at never path
stays-NeverReady c state _ _ at never (restored s t d status access_exp next_refresh path apart) =
    get-insert_other d c _ t.entries apart ∙ stays-NeverReady c state s t at never path
stays-NeverReady c state _ _ at never (removed s t d path apart) =
    get-remove_other d c t.entries apart ∙ stays-NeverReady c state s t at never path
stays-NeverReady c state _ _ at never (taken s t now path) =
    (take_due-NeverReady t c state now (stays-NeverReady c state s t at never path) never).1
stays-NeverReady c state _ _ at never (recorded s t d outcome now j path apart) =
    record_outcome-other t c d outcome now j apart ∙ stays-NeverReady c state s t at never path

-- What is never ready is handed out by no later pass.
pub apart-take_due :
    (s t : Scheduler) (c : CustodyId) (state : CustodyState) (now : Timestamp)
    → get c s.entries ≡ some state
    → NeverReady state
    → IsApart c s t
    → count c (take_due t now).1 ≡ 0
apart-take_due s t c state now at never path =
    (take_due-NeverReady t c state now (stays-NeverReady c state s t at never path) never).0

-- A custody in flight is not handed out by any later pass, however many passes and calls on other
-- custodies lie between. The calls on the custody itself, which are to record its outcome, to
-- insert it anew and to remove it, are excluded: while none of them comes, no second refresh of
-- it starts, and one whose task panicked, after which `tick` records nothing, is not retried.
pub in_flight-take_due :
    (s t : Scheduler) (c : CustodyId) (state : CustodyState) (now : Timestamp)
    → get c s.entries ≡ some state
    → state.refreshing ≡ true
    → IsApart c s t
    → count c (take_due t now).1 ≡ 0
in_flight-take_due s t c state now at busy path =
    apart-take_due s t c state now at (λ later. busy-is_ready later state busy) path
