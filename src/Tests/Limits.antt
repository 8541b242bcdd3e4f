-- ===== src/Tests/Limits.antt =====
-- A limiter of three calls in ten seconds, and what the theorems on ratelimit.rs say of it.
use session_broker.Base.{
  ◌+◌, ◌*◌, ◌-◌, ◌≤◌, ◌≡◌, ◌↔◌, refl, ◌∷◌, [], true, false, List, arith, get, insert,
}
use session_broker.Ratelimit.Limiter.{
  Key, Instant, Quota, Limiter, is_allowed, new, new_quota, check_at, check_bucket, check_new,
  admit, retain_partial, is_partial, first_bucket, refill, refilled, wait_nanos, header_secs, scale,
  capacity_tokens, nanos_per_sec,
}
use session_broker.Ratelimit.Rate.{allowed_in, allowed_in-le}
use session_broker.Ratelimit.Table.{IsWithin, check_at-IsWithin}
use session_broker.Ratelimit.Retry.{check_again, refused-check_again, header_secs-check_at}

program : Unit {0}
unfolding get insert is_allowed new check_at check_bucket check_new admit retain_partial is_partial
    first_bucket refill refilled wait_nanos header_secs allowed_in
program = tt

abbrev quota : Quota
quota = new_quota 3 10

abbrev fresh : Limiter
fresh = new quota 2

abbrev burst : List (Key × Instant)
burst = (5, 0) ∷ (5, 0) ∷ (6, 0) ∷ (5, 0) ∷ (5, 1) ∷ (5, 4_000_000_000) ∷ []

burst_allowed : allowed_in 5 fresh burst ≡ 4
unfolding program
burst_allowed = refl

allowed_in-le_example :
    fresh.quota.per * allowed_in 5 fresh burst
    ≤ fresh.quota.per * fresh.quota.burst + fresh.quota.burst * (4_000_000_000 - 0)
unfolding program
allowed_in-le_example =
    allowed_in-le 5 fresh burst 0 4_000_000_000 (omega arith, omega arith, omega arith, omega arith)
      tt (omega arith)

check_at-IsWithin_example : IsWithin (check_at fresh 5 0).0
unfolding program
check_at-IsWithin_example = check_at-IsWithin fresh 5 0 (omega arith, omega arith)

-- A bucket with nothing left.
abbrev spent : Limiter
spent = record fresh { buckets = (5, record { tokens = 0; last = 0 }) ∷ [] }

refused-check_again_example :
    (is_allowed (check_at spent 5 0).1 ≡ false)
    × ((check_again spent 5 0 3_333_333_334 ≡ true) ↔ (
        (scale - refilled spent.quota (record { tokens = 0; last = 0 }) 0) * spent.quota.per
        ≤ 3_333_333_334 * capacity_tokens spent.quota))
unfolding program
refused-check_again_example =
    refused-check_again spent 5 (record { tokens = 0; last = 0 }) 0 3_333_333_334
      (omega arith, omega arith, omega arith, omega arith) refl (omega arith) (omega arith)

-- The wait is 3.33 seconds and the header says 3.
header_secs-check_at_example :
    (check_again spent 5 0 (header_secs 3_333_333_333 * nanos_per_sec) ≡ false)
    × (check_again spent 5 0 (header_secs 3_333_333_333 * nanos_per_sec + nanos_per_sec) ≡ true)
unfolding program
header_secs-check_at_example =
    header_secs-check_at spent 5 (record { tokens = 0; last = 0 }) 0 3_333_333_333
      (omega arith, omega arith, omega arith, omega arith) refl refl (omega arith) (omega arith)
      (omega arith)
