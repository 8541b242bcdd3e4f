-- ===== src/Tests/Custodies.antt =====
-- A scheduler with one custody, and what the theorems on keepalive.rs say of it.
use session_broker.Base.{
  ℕ, ◌+◌, ◌*◌, ◌<◌, ◌≤◌, ◌≡◌, refl, ◌∷◌, [], true, false, none, some, arith, get, insert, max,
  count, if◌then◌else◌, leb, ◌/◌,
}
use session_broker.Clock.{Timestamp, epoch, plus_secs}
use session_broker.Session.Types.{RevocationPolicy, ok, degraded}
use session_broker.Keepalive.Scheduler.{
  KeepalivePolicy, Jitter, CustodyState, Scheduler, transient, new, push, schedule, insert_issued,
  next_refresh_at, take_due, drain, take_one, is_ready, is_dead, record_outcome,
}
use session_broker.Keepalive.Duty.{
  IsStep, IsReachable, IsApart, is_due, times, take_due-exact, in_flight-take_due,
}
use session_broker.Keepalive.Backoff.{ceiling, record_outcome-transient}

program : Unit {0}
unfolding get insert plus_secs new push schedule insert_issued next_refresh_at take_due drain
    take_one is_ready is_dead record_outcome
program = tt

abbrev noon : Timestamp
noon = epoch + 1_700_000_000

abbrev policy : KeepalivePolicy
policy = record {
  base_backoff_secs = 1;
  max_backoff_secs = 300;
  max_concurrent = 8;
  on_upstream_revoked = RevocationPolicy.kill;
}

-- The draw 0.5 at the default fractions.
abbrev middle : Jitter
middle = record { spread = λ lifetime. lifetime * 6 / 10; full = λ secs. secs / 2 }

abbrev one : Scheduler
one = insert_issued (new policy) 1 noon 3600 middle

one-IsReachable : IsReachable policy one
one-IsReachable =
    IsReachable.next (new policy) one IsReachable.start
      (IsStep.issued (new policy) 1 noon 3600 middle)

due_at_sixty_percent :
    ((take_due one (noon + 2159)).1 ≡ []) × ((take_due one (noon + 2160)).1 ≡ 1 ∷ [])
unfolding program
due_at_sixty_percent = (refl, refl)

take_due-exact_example :
    (count 1 (take_due one (noon + 2160)).1 ≡ times (is_due one 1 (noon + 2160)))
    × ((take_due (take_due one (noon + 2160)).0 (noon + 2160)).1 ≡ [])
take_due-exact_example = take_due-exact policy one 1 (noon + 2160) one-IsReachable

abbrev waiting : CustodyState
waiting = record {
  status = ok;
  access_exp = noon + 3600;
  next_refresh = noon + 2160;
  fail_count = 0;
  refreshing = false;
}

abbrev busy : CustodyState
busy = record waiting { refreshing = true }

abbrev flying : Scheduler
flying = (take_due one (noon + 2160)).0

flying_at : get 1 flying.entries ≡ some busy
unfolding program
flying_at = refl

-- The pass a day later still passes over it.
in_flight-take_due_example :
    count 1 (take_due (take_due flying (noon + 5000)).0 (noon + 86_400)).1 ≡ 0
in_flight-take_due_example =
    in_flight-take_due flying (take_due flying (noon + 5000)).0 1 busy (noon + 86_400) flying_at
      refl (IsApart.taken flying flying (noon + 5000) (IsApart.stay flying))

half-le : (e : ℕ) → e / 2 ≤ e
half-le e = omega arith

record_outcome-transient_example :
    let r = record_outcome flying 1 (transient none) (noon + 2161) middle in
    (next : CustodyState) × (get 1 r.0.entries ≡ some next)
    × (r.1 ≡ some next.status)
    × (next.status ≡ (if leb (noon + 3600) (noon + 2161) then degraded else ok))
    × (next.refreshing ≡ false)
    × (next.fail_count ≡ 1)
    × (noon + 2161 < next.next_refresh)
    × (next.next_refresh ≤ noon + 2161 + max (ceiling flying.policy 0) 1)
unfolding program
record_outcome-transient_example =
    record_outcome-transient flying 1 busy (noon + 2161) middle flying_at half-le (omega arith)
      (omega arith) (omega arith)
