-- ===== src/Keepalive/Taking.antt =====
-- keepalive.rs, `Scheduler::take_due`: what one pass hands out.
use session_broker.Base.{
  some-inj, true-false, ℕ, ◌≤◌, ◌≡◌, ◌⊎◌, ◌∷◌, [], true, false, List, some, leb, get, insert,
  get-insert, ◌==◌, ◌∙◌, sym, ap, refl, inl, inr, Bool-cases, Option-cases, In, count, arith, All,
  All-In,
}
use session_broker.Clock.{Timestamp}
use session_broker.Session.Types.{CustodyId}
use session_broker.Keepalive.Scheduler.{CustodyState, Taken, is_ready, in_flight, take_one, drain}

in_flight-is_ready :
    (now : Timestamp) (state : CustodyState) → is_ready now (in_flight state) ≡ false
unfolding is_ready
in_flight-is_ready now state = ground arith

take_one-cases :
    (now : Timestamp) (d : CustodyId) (es : List (ℕ × CustodyState))
    → (take_one now d es ≡ (false, es))
      ⊎ ((state : CustodyState) × (get d es ≡ some state)
          × (is_ready now state ≡ true)
          × (take_one now d es ≡ (true, insert d (in_flight state) es)))
unfolding take_one
take_one-cases now d es = elim (Option-cases (get d es)) [
  | inl missing ↦ inl (rw (missing, take_one) refl)
  | inr (state, at) ↦ elim (Bool-cases (is_ready now state)) [
    | inl ready ↦ inr (state, at, ready, rw (at, ready, take_one) refl)
    | inr unready ↦ inl (rw (at, unready, take_one) refl)
  ]
]

-- What a pass does with one custody: it is not handed out and its entry stays, or it is handed
-- out once, was ready, and is in flight after.
abbrev pub IsHandled : Timestamp → CustodyId → List (ℕ × CustodyState) → Taken → Type 0
IsHandled now c es t =
    ((count c t.ready ≡ 0) × (get c t.marked ≡ get c es))
    ⊎ ((count c t.ready ≡ 1)
        × ((state : CustodyState) × (get c es ≡ some state)
            × (is_ready now state ≡ true)
            × (get c t.marked ≡ some (in_flight state))))

again :
    (now : Timestamp) (c d : CustodyId) (es : List (ℕ × CustodyState)) (state old : CustodyState)
    → (d == c) ≡ true
    → get c (insert d (in_flight state) es) ≡ some old
    → is_ready now old ≡ true
    → ⊥
again now c d es state old same at ready =
    let it : in_flight state ≡ old =
      some-inj (in_flight state) old (ground (arith, get-insert d c (in_flight state) es)) in
    true-false (sym ready ∙ sym (ap (is_ready now) it) ∙ in_flight-is_ready now state)

handed_out :
    (now : Timestamp) (c d : CustodyId) (es : List (ℕ × CustodyState)) (state : CustodyState)
    (t : Taken)
    → get d es ≡ some state
    → is_ready now state ≡ true
    → IsHandled now c (insert d (in_flight state) es) t
    → IsHandled now c es (record t { ready = d ∷ t.ready })
unfolding count
handed_out now c d es state t found ready (inl (none_later, kept)) = elim (Bool-cases (d == c)) [
  | inl same ↦ inr (
    ground (arith),
    (state, ground (arith), ready, ground (arith, get-insert d c (in_flight state) es)),
  )
  | inr other ↦ inl (ground (arith), ground (arith, get-insert d c (in_flight state) es))
]
handed_out now c d es state t found ready (inr (once, (old, at, was_ready, kept))) =
    elim (Bool-cases (d == c)) [
      | inl same ↦ elim (again now c d es state old same at was_ready) [ ]
      | inr other ↦ inr (
        ground (arith),
        (old, ground (arith, get-insert d c (in_flight state) es), was_ready, kept),
      )
    ]

pub drain-IsHandled :
    (now : Timestamp) (c : CustodyId) (due : List (Timestamp × CustodyId))
    (es : List (ℕ × CustodyState))
    → IsHandled now c es (drain now due es)
unfolding drain count
drain-IsHandled now c [] es = inl (refl, refl)
drain-IsHandled now c ((at, d) ∷ due) es = elim (Bool-cases (leb at now)) [
  | inr late ↦ rw (late) (inl (refl, refl))
  | inl timely ↦ elim (take_one-cases now d es) [
    | inl passed ↦ rw (timely, passed) (drain-IsHandled now c due es)
    | inr (state, found, ready, taken) ↦
        rw (timely, taken)
          (handed_out now c d es state (drain now due (insert d (in_flight state) es)) found ready
            (drain-IsHandled now c due (insert d (in_flight state) es)))
  ]
]

-- The heap is a list with the earliest deadline first.
abbrev pub IsSorted : List (Timestamp × CustodyId) → Type 0
IsSorted [] = Unit
IsSorted ((at, c) ∷ due) = All (λ (e : Timestamp × CustodyId). at ≤ e.0) due × IsSorted due

-- A second pass at the same instant hands out nothing, whatever the entries have become.
pub drain-rest :
    (now : Timestamp) (due : List (Timestamp × CustodyId)) (es fs : List (ℕ × CustodyState))
    → (drain now (drain now due es).rest fs).ready ≡ []
unfolding drain
drain-rest now [] es fs = refl
drain-rest now ((at, d) ∷ due) es fs = elim (Bool-cases (leb at now)) [
  | inr late ↦ rw (late, late) refl
  | inl timely ↦ elim (Bool-cases (take_one now d es).0) [
    | inl taken ↦ rw (timely, taken) (drain-rest now due (take_one now d es).1 fs)
    | inr passed ↦ rw (timely, passed) (drain-rest now due (take_one now d es).1 fs)
  ]
]

count-cons : (c d : CustodyId) (cs : List CustodyId) → count c cs ≤ count c (d ∷ cs)
unfolding count
count-cons c d cs = ground arith

take_one-other :
    (now : Timestamp) (c d : CustodyId) (es : List (ℕ × CustodyState)) (state : CustodyState)
    → get c es ≡ some state
    → is_ready now state ≡ true
    → (get c (take_one now d es).1 ≡ some state) ⊎ ((d == c) ≡ true)
take_one-other now c d es state at ready = elim (take_one-cases now d es) [
  | inl passed ↦ inl (rw passed at)
  | inr (s, found, was_ready, taken) ↦ elim (Bool-cases (d == c)) [
    | inl same ↦ inr same
    | inr other ↦ inl (rw taken (ground (arith, get-insert d c (in_flight s) es)))
  ]
]

take_one-ready :
    (now : Timestamp) (d : CustodyId) (es : List (ℕ × CustodyState)) (state : CustodyState)
    → get d es ≡ some state
    → is_ready now state ≡ true
    → (take_one now d es).0 ≡ true
unfolding take_one
take_one-ready now d es state at ready = rw (at, ready, take_one) refl

at_head : (c d at t : ℕ) → ◌≡◌ {A = ℕ × ℕ} (at, c) (t, d) → (at ≡ t) × (d == c ≡ true)
at_head c d at t h = (ap (λ (e : ℕ × ℕ). e.0) h, ground (arith, ap (λ (e : ℕ × ℕ). e.1) h))

is_timely :
    (now at t : Timestamp) (c d : CustodyId) (due : List (Timestamp × CustodyId))
    → IsSorted ((t, d) ∷ due)
    → In (at, c) ((t, d) ∷ due)
    → at ≤ now
    → leb t now ≡ true
is_timely now at t c d due sorted (inl head) early = ground (arith, (at_head c d at t head).0)
is_timely now at t c d due sorted (inr later) early =
    ground (arith, All-In (λ (e : Timestamp × CustodyId). t ≤ e.0) (at, c) due sorted.0 later)

same_entry :
    (c d : CustodyId) (es : List (ℕ × CustodyState)) (state : CustodyState)
    → (d == c) ≡ true
    → get c es ≡ some state
    → get d es ≡ some state
same_entry c d es state same found = ground arith

later_In :
    (now at t : Timestamp) (c d : CustodyId) (due : List (Timestamp × CustodyId))
    → In (at, c) ((t, d) ∷ due)
    → (d == c) ≡ false
    → In (at, c) due
later_In now at t c d due (inl head) other =
    elim (true-false (sym (at_head c d at t head).1 ∙ other)) [ ]
later_In now at t c d due (inr later) other = later

kept_entry :
    (now : Timestamp) (c d : CustodyId) (es : List (ℕ × CustodyState)) (state : CustodyState)
    → get c es ≡ some state
    → is_ready now state ≡ true
    → (d == c) ≡ false
    → get c (take_one now d es).1 ≡ some state
kept_entry now c d es state found ready other = elim (take_one-other now c d es state found ready) [
  | inl kept ↦ kept
  | inr same ↦ elim (true-false (sym same ∙ other)) [ ]
]

-- A custody that is ready and has its deadline in the heap is handed out.
pub drain-ready :
    (now at : Timestamp) (c : CustodyId) (due : List (Timestamp × CustodyId))
    (es : List (ℕ × CustodyState)) (state : CustodyState)
    → IsSorted due
    → In (at, c) due
    → at ≤ now
    → get c es ≡ some state
    → is_ready now state ≡ true
    → 1 ≤ count c (drain now due es).ready
unfolding drain count
drain-ready now at c [] es state sorted listed early found ready = elim listed [ ]
drain-ready now at c ((t, d) ∷ due) es state sorted listed early found ready =
    let timely = is_timely now at t c d due sorted listed early in
    let later : In (at, c) due
        → get c (take_one now d es).1 ≡ some state
        → 1 ≤ count c (drain now due (take_one now d es).1).ready =
      λ i kept. drain-ready now at c due (take_one now d es).1 state sorted.1 i early kept ready in
    elim (Bool-cases (d == c)) [
      | inl same ↦
          let taken = take_one-ready now d es state (same_entry c d es state same found) ready in
          rw (timely, taken) (ground arith)
      | inr other ↦
          let here =
            later (later_In now at t c d due listed other)
              (kept_entry now c d es state found ready other) in
          elim (Bool-cases (take_one now d es).0) [
            | inl taken ↦ rw (timely, taken) (ground (arith, here))
            | inr passed ↦ rw (timely, passed) here
          ]
    ]
