-- ===== src/Ratelimit/Rate.antt =====
-- The rate that the limiter enforces, over any sequence of calls.
use session_broker.Base.{
  ℕ, ◌+◌, ◌-◌, ◌*◌, ◌≤◌, ◌≡◌, ◌∷◌, [], List, ◌==◌, if◌then◌else◌, arith, get, HasUniqueKeys,
}
use session_broker.Ratelimit.Limiter.{
  Key, Instant, Quota, Decision, allow, deny, Limiter, capacity_tokens, per_nanos, scale, check_at,
}
use session_broker.Ratelimit.Budget.{
  IsQuota, credit-le, credit_of, credit_later, spent, check_at-Pays,
}

abbrev pub allowed : Key → Key → Decision → ℕ
allowed key k (deny wait) = 0
allowed key k allow = if key == k then 1 else 0

-- How many of the calls were allowed to `k`.
unfoldable pub allowed_in : Key → Limiter → List (Key × Instant) → ℕ
allowed_in k l [] = 0
allowed_in k l ((key, now) ∷ calls) =
    let r = check_at l key now in allowed key k r.1 + allowed_in k r.0 calls

-- The calls come in the order of time, from `start` to `finish`.
abbrev pub InOrder : Instant → List (Key × Instant) → Instant → Type 0
InOrder start [] finish = start ≤ finish
InOrder start ((key, now) ∷ calls) finish = (start ≤ now) × InOrder now calls finish

InOrder-le :
    (start finish : Instant) (calls : List (Key × Instant))
    → InOrder start calls finish
    → start ≤ finish
InOrder-le start finish [] h = h
InOrder-le start finish ((key, now) ∷ calls) h = omega (arith, InOrder-le now finish calls h.1)

spent_lem :
    (q : Quota) (key k : Key) (d : Decision)
    → spent key k d q ≡ per_nanos q * scale * allowed key k d
spent_lem q key k allow = ground arith
spent_lem q key k (deny wait) = omega arith

between : (a b c p : ℕ) → a ≤ b → b ≤ c → (b - a) * p + (c - b) * p ≡ (c - a) * p
between a b c p h k = grind arith

allowed_credit :
    (k : Key) (l : Limiter) (calls : List (Key × Instant)) (start finish : Instant)
    → IsQuota l.quota
    → HasUniqueKeys l.buckets
    → InOrder start calls finish
    → per_nanos l.quota * scale * allowed_in k l calls
      ≤ credit_of l k start + (finish - start) * capacity_tokens l.quota
unfolding allowed_in
allowed_credit k l [] start finish ok u h = omega arith
allowed_credit k l ((key, now) ∷ calls) start finish ok u h =
    let r = check_at l key now in
    let paid = check_at-Pays l ok u key k now in
    let rest = allowed_credit k r.0 calls now finish (rw paid.quota_kept ok) paid.unique h.1 in
    let rest' = rw paid.quota_kept at rest in
    let paid' = rw paid.quota_kept at paid.paid in
    let goal : per_nanos l.quota * scale * (allowed key k r.1 + allowed_in k r.0 calls)
        ≤ credit_of l k start + (finish - start) * capacity_tokens l.quota =
      omega (
        arith,
        paid',
        rest',
        credit_later l.quota (get k l.buckets) start now h.0,
        spent_lem l.quota key k r.1,
        between start now finish (capacity_tokens l.quota) h.0 (InOrder-le now finish calls h.1),
      ) in
    goal

-- In any stretch of calls, by any mix of callers, one key is allowed at most its burst and the
-- share of it that the time restores: `per * allowed ≤ per * burst + burst * elapsed`. The table
-- may fill up and forget buckets on the way. The conditions: a quota whose burst is a positive
-- `u32` and whose period has 2 to 2^64 - 1 nanoseconds, no key twice in the table, and calls in
-- the order of time.
pub allowed_in-le :
    (k : Key) (l : Limiter) (calls : List (Key × Instant)) (start finish : Instant)
    → IsQuota l.quota
    → HasUniqueKeys l.buckets
    → InOrder start calls finish
    → l.quota.per * allowed_in k l calls
      ≤ l.quota.per * l.quota.burst + l.quota.burst * (finish - start)
allowed_in-le k l calls start finish ok u h =
    let same : per_nanos l.quota ≡ l.quota.per = omega arith in
    omega (
      arith,
      rw same at (allowed_credit k l calls start finish ok u h),
      rw same at (credit-le l.quota (get k l.buckets) start),
    )
