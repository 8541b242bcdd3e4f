-- ===== src/Keepalive/Scheduled.antt =====
-- keepalive.rs, `Scheduler`: the invariant that ties the heap to the entries.
use session_broker.Base.{
  not_both, some-inj, true-false, ℕ, ◌≤◌, ◌<◌, ◌≡◌, ◌∷◌, [], Bool, true, false, ◌||◌, ◌&&◌, not,
  List, some, leb, ltb, get, insert, get-insert, get-remove, ◌==◌, ◌∙◌, sym, ap, refl, inl, inr,
  Bool-cases, Option-cases, In, count, arith, All,
}
use session_broker.Clock.{Timestamp}
use session_broker.Session.Types.{CustodyId}
use session_broker.Keepalive.Scheduler.{
  CustodyState, Scheduler, Jitter, RefreshOutcome, success, transient, permanent, is_ready, is_dead,
  in_flight, take_one, drain, take_due, push, schedule, settle, record_outcome, remove_custody,
  after_revocation,
}
use session_broker.Keepalive.Taking.{IsSorted, drain-IsHandled, drain-ready}

unfoldable pub is_waiting : CustodyState → Bool
is_waiting state = not (state.refreshing || is_dead state.status)

abbrev pub IsScheduled : Scheduler → Type 0
IsScheduled s =
    IsSorted s.due
    × ((c : CustodyId) (state : CustodyState)
        → get c s.entries ≡ some state
        → is_waiting state ≡ true
        → In {A = ℕ × ℕ} (state.next_refresh, c) s.due)

push-All :
    (at t : Timestamp) (c : CustodyId) (due : List (Timestamp × CustodyId))
    → t ≤ at
    → All (λ (e : Timestamp × CustodyId). t ≤ e.0) due
    → All (λ (e : Timestamp × CustodyId). t ≤ e.0) (push at c due)
unfolding push
push-All at t c [] low all = (low, tt)
push-All at t c ((u, d) ∷ due) low all = ground (arith, push-All at t c due low all.1)

All-le :
    (at t : Timestamp) (due : List (Timestamp × CustodyId))
    → at ≤ t
    → All (λ (e : Timestamp × CustodyId). t ≤ e.0) due
    → All (λ (e : Timestamp × CustodyId). at ≤ e.0) due
All-le at t [] low all = tt
All-le at t ((u, d) ∷ due) low all = (omega (arith, all.0), All-le at t due low all.1)

push-IsSorted :
    (at : Timestamp) (c : CustodyId) (due : List (Timestamp × CustodyId))
    → IsSorted due
    → IsSorted (push at c due)
unfolding push
push-IsSorted at c [] sorted = (tt, tt)
push-IsSorted at c ((t, d) ∷ due) sorted =
    ground (arith, push-IsSorted at c due sorted.1, All-le at t due, push-All at t c due)

too_late : (now at t : ℕ) → now < at → leb t now ≡ true → at ≡ t → ⊥
too_late now at t late timely same = ground (arith)

In-push :
    (at : Timestamp) (c : CustodyId) (due : List (Timestamp × CustodyId))
    → In {A = ℕ × ℕ} (at, c) (push at c due)
unfolding push
In-push at c [] = inl refl
In-push at c ((t, d) ∷ due) = elim (Bool-cases (ltb at t || (at == t) && leb c d)) [
  | inl first ↦ rw first (inl refl)
  | inr later ↦ rw later (inr (In-push at c due))
]

In-push_old :
    (e : ℕ × ℕ) (at : Timestamp) (c : CustodyId) (due : List (Timestamp × CustodyId))
    → In e due
    → In e (push at c due)
unfolding push
In-push_old e at c [] i = elim i [ ]
In-push_old e at c ((t, d) ∷ due) i = elim (Bool-cases (ltb at t || (at == t) && leb c d)) [
  | inl first ↦ rw first (inr i)
  | inr later ↦
      rw later (elim i [ inl head ↦ inl head | inr rest ↦ inr (In-push_old e at c due rest) ])
]

still-In :
    (now at t : Timestamp) (c d : CustodyId) (due : List (Timestamp × CustodyId))
    → now < at
    → leb t now ≡ true
    → In {A = ℕ × ℕ} (at, c) ((t, d) ∷ due)
    → In {A = ℕ × ℕ} (at, c) due
still-In now at t c d due late timely (inl head) =
    elim (too_late now at t late timely (ap (λ (e : ℕ × ℕ). e.0) head)) [ ]
still-In now at t c d due late timely (inr rest) = rest

drain-In :
    (now at : Timestamp) (c : CustodyId) (due : List (Timestamp × CustodyId))
    (es : List (ℕ × CustodyState))
    → now < at
    → In {A = ℕ × ℕ} (at, c) due
    → In {A = ℕ × ℕ} (at, c) (drain now due es).rest
unfolding drain
drain-In now at c [] es late i = elim i [ ]
drain-In now at c ((t, d) ∷ due) es late i = elim (Bool-cases (leb t now)) [
  | inr stop ↦ rw stop i
  | inl timely ↦
      let below =
        drain-In now at c due (take_one now d es).1 late
          (still-In now at t c d due late timely i) in
      elim (Bool-cases (take_one now d es).0) [
        | inl taken ↦ rw (timely, taken) below
        | inr passed ↦ rw (timely, passed) below
      ]
]

drain-IsSorted :
    (now : Timestamp) (due : List (Timestamp × CustodyId)) (es : List (ℕ × CustodyState))
    → IsSorted due
    → IsSorted (drain now due es).rest
unfolding drain
drain-IsSorted now [] es sorted = tt
drain-IsSorted now ((t, d) ∷ due) es sorted =
    ground (arith, drain-IsSorted now due (take_one now d es).1 sorted.1)

module _ (c d : CustodyId) (state other : CustodyState) (es : List (ℕ × CustodyState))
    (found : get d (insert c state es) ≡ some other) where
  insert-same : (c == d) ≡ true → (c ≡ d) × (state ≡ other)
  insert-same same =
      (ground (arith), some-inj state other (ground (arith, get-insert c d state es)))

  insert-other : (c == d) ≡ false → get d es ≡ some other
  insert-other apart = ground (arith, get-insert c d state es)

-- The custodies that wait stand in the heap.
abbrev Lists : List (ℕ × CustodyState) → List (Timestamp × CustodyId) → Type 0
Lists es due =
    (c : CustodyId) (state : CustodyState)
    → get c es ≡ some state
    → is_waiting state ≡ true
    → In {A = ℕ × ℕ} (state.next_refresh, c) due

pub schedule-IsScheduled :
    (s : Scheduler) (c : CustodyId) (state : CustodyState)
    → IsScheduled s
    → IsScheduled (schedule s c state)
unfolding schedule
schedule-IsScheduled s c state (sorted, listed) = (
  push-IsSorted state.next_refresh c s.due sorted,
  λ d other found waiting. elim (Bool-cases (c == d)) [
    | inl same ↦
        let it = insert-same c d state other s.entries found same in
        rw (sym it.1, sym it.0) (In-push state.next_refresh c s.due)
    | inr apart ↦
        In-push_old (other.next_refresh, d) state.next_refresh c s.due
          (listed d other (insert-other c d state other s.entries found apart) waiting)
  ],
)

after_revocation-is_waiting :
    (state : CustodyState) (now : Timestamp) → is_waiting (after_revocation state now) ≡ false
unfolding is_waiting after_revocation is_dead
after_revocation-is_waiting state now = refl

revoke-Lists :
    (s : Scheduler) (c : CustodyId) (state : CustodyState) (now : Timestamp)
    → Lists s.entries s.due
    → Lists (insert c (after_revocation state now) s.entries) s.due
revoke-Lists s c state now listed d other found waiting = elim (Bool-cases (c == d)) [
  | inl same ↦
      let it = insert-same c d (after_revocation state now) other s.entries found same in
      elim (true-false
        (sym waiting ∙ sym (ap is_waiting it.1) ∙ after_revocation-is_waiting state now)) [ ]
  | inr apart ↦
      listed d other (insert-other c d (after_revocation state now) other s.entries found apart)
        waiting
]

settle-IsScheduled :
    (s : Scheduler) (c : CustodyId) (state : CustodyState) (outcome : RefreshOutcome)
    (now : Timestamp) (j : Jitter)
    → IsScheduled s
    → IsScheduled (settle s c state outcome now j).0
unfolding settle
settle-IsScheduled s c state (success lifetime rotated) now j h = schedule-IsScheduled s c _ h
settle-IsScheduled s c state (transient retry_after) now j h = schedule-IsScheduled s c _ h
settle-IsScheduled s c state permanent now j h = (h.0, revoke-Lists s c state now h.1)

pub record_outcome-IsScheduled :
    (s : Scheduler) (c : CustodyId) (outcome : RefreshOutcome) (now : Timestamp) (j : Jitter)
    → IsScheduled s
    → IsScheduled (record_outcome s c outcome now j).0
unfolding record_outcome
record_outcome-IsScheduled s c outcome now j h = elim (Option-cases (get c s.entries)) [
  | inl missing ↦ rw (missing, record_outcome) h
  | inr (state, at) ↦ rw (at, record_outcome) (settle-IsScheduled s c state outcome now j h)
]

pub remove-IsScheduled :
    (s : Scheduler) (c : CustodyId) → IsScheduled s → IsScheduled (remove_custody s c)
unfolding remove_custody
remove-IsScheduled s c (sorted, listed) = (
  sorted,
  λ d other found waiting. listed d other (ground (arith, get-remove c d s.entries)) waiting,
)

module _ (s : Scheduler) (now : Timestamp) where
  pub waiting-is_ready :
      (state : CustodyState)
      → is_waiting state ≡ true
      → state.next_refresh ≤ now
      → is_ready now state ≡ true
  unfolding is_waiting is_ready
  waiting-is_ready state waiting early = ground arith

  in_flight-is_waiting : (state : CustodyState) → is_waiting (in_flight state) ≡ false
  unfolding is_waiting
  in_flight-is_waiting state = ground arith

  take_due-Lists : IsScheduled s → Lists (take_due s now).0.entries (take_due s now).0.due
  unfolding take_due
  take_due-Lists (sorted, listed) c state found waiting =
      elim (drain-IsHandled now c s.due s.entries) [
        | inl (passed, kept) ↦ elim (Bool-cases (leb state.next_refresh now)) [
          | inr late ↦
              drain-In now state.next_refresh c s.due s.entries (ground arith)
                (listed c state (sym kept ∙ found) waiting)
          | inl early ↦
              let taken =
                drain-ready now state.next_refresh c s.due s.entries state sorted
                  (listed c state (sym kept ∙ found) waiting) (ground arith) (sym kept ∙ found)
                  (waiting-is_ready state waiting (ground arith)) in
              elim (not_both (count c (drain now s.due s.entries).ready) taken passed) [ ]
        ]
        | inr (once, (old, at, ready, marked)) ↦
            elim (true-false (
              sym waiting
              ∙ sym (ap is_waiting (some-inj (in_flight old) state (sym marked ∙ found)))
              ∙ in_flight-is_waiting old)) [ ]
      ]

  pub take_due-IsScheduled : IsScheduled s → IsScheduled (take_due s now).0
  unfolding take_due
  take_due-IsScheduled h = (drain-IsSorted now s.due s.entries h.0, take_due-Lists h)
