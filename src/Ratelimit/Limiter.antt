-- ===== src/Ratelimit/Limiter.antt =====
-- ratelimit.rs, `Limiter`. Keys are strings that it only compares, numbers here. An `Instant` is
-- a number of nanoseconds. A poisoned mutex, which allows every call, is not modelled.
use session_broker.Base.{
  ℕ, ◌+◌, ◌-◌, ◌*◌, ◌/◌, ◌%◌, ◌^◌, ◌∷◌, [], Bool, true, false, List, none, some, min, max, ltb, leb,
  if◌then◌else◌, get, insert, length,
}

abbrev pub Key : Type 0
Key = ℕ

abbrev pub Instant : Type 0
Instant = ℕ

abbrev pub u64 : ℕ → ℕ
u64 n = n % 2 ^ 64

abbrev pub u64_max : ℕ
u64_max = 2 ^ 64 - 1

-- `per` in nanoseconds.
pub record Quota : Type 0 where
  pub burst : ℕ  -- u32
  pub per : ℕ

abbrev pub nanos_per_sec : ℕ
nanos_per_sec = 1_000_000_000

abbrev pub new_quota : ℕ → ℕ → Quota
new_quota burst per_secs = record { burst = burst; per = per_secs * nanos_per_sec }

pub data Decision : Type 0 where
  allow : Decision
  deny : ℕ → Decision

unfoldable pub is_allowed : Decision → Bool
is_allowed allow = true
is_allowed (deny retry_after) = false

pub record Bucket : Type 0 where
  pub tokens : ℕ  -- u64
  pub last : Instant

abbrev pub scale : ℕ
scale = 1_000_000

pub record Limiter : Type 0 where
  pub quota : Quota
  pub buckets : List (ℕ × Bucket)
  pub capacity : ℕ

unfoldable pub new : Quota → ℕ → Limiter
new quota capacity = record { quota = quota; buckets = []; capacity = max capacity 1 }

unfoldable pub tracked : Limiter → ℕ
tracked l = length l.buckets

abbrev pub capacity_tokens : Quota → ℕ
capacity_tokens q = q.burst * scale

-- `per.as_nanos().max(1) as u64`.
abbrev pub per_nanos : Quota → ℕ
per_nanos q = u64 (max q.per 1)

-- `elapsed.saturating_mul(capacity_tokens) / per_nanos`, with `saturating_duration_since`.
unfoldable pub refill : Quota → Bucket → Instant → ℕ
refill q b now = min (u64 (now - b.last) * capacity_tokens q) u64_max / per_nanos q

-- The tokens of a bucket after its refill; the sum is on `u64`.
unfoldable pub refilled : Quota → Bucket → Instant → ℕ
unfolding refill
refilled q b now = min (u64 (b.tokens + refill q b now)) (capacity_tokens q)

unfoldable pub wait_nanos : Quota → ℕ → ℕ
wait_nanos q tokens = min ((scale - tokens) * per_nanos q) u64_max / max (capacity_tokens q) 1

-- The branch of a key that has a bucket.
unfoldable pub check_bucket : Limiter → Key → Bucket → Instant → Limiter × Decision
unfolding wait_nanos
check_bucket l key b now =
    let tokens = refilled l.quota b now in
    if leb scale tokens
    then (
      record l { buckets = insert key (record { tokens = tokens - scale; last = now }) l.buckets },
      allow,
    )
    else (
      record l { buckets = insert key (record { tokens = tokens; last = now }) l.buckets },
      deny (max (wait_nanos l.quota tokens) 1),
    )

-- `retain` keeps the buckets that are not full.
unfoldable pub is_partial : Quota → Instant → Bucket → Bool
is_partial q now b = ltb (u64 (b.tokens + refill q b now)) (capacity_tokens q)

unfoldable pub retain_partial : Quota → Instant → List (ℕ × Bucket) → List (ℕ × Bucket)
retain_partial q now [] = []
retain_partial q now ((k, b) ∷ bs) =
    let rest = retain_partial q now bs in if is_partial q now b then (k, b) ∷ rest else rest

-- `capacity_tokens - SCALE` on `u64`: a quota with no burst wraps.
unfoldable pub first_bucket : Quota → Instant → Bucket
first_bucket q now = record { tokens = u64 (capacity_tokens q + 2 ^ 64 - scale); last = now }

unfoldable pub admit : Limiter → Key → Instant → Limiter × Decision
unfolding first_bucket
admit l key now = (record l { buckets = insert key (first_bucket l.quota now) l.buckets }, allow)

-- The branch of a new key.
unfoldable pub check_new : Limiter → Key → Instant → Limiter × Decision
check_new l key now =
    let room = record l { buckets = retain_partial l.quota now l.buckets } in
    if leb l.capacity (length l.buckets)
    then (if leb l.capacity (length room.buckets)
        then (room, deny l.quota.per)
        else admit room key now)
    else admit l key now

unfoldable pub check_at : Limiter → Key → Instant → Limiter × Decision
check_at l key now = elim (get key l.buckets) [
  | some b ↦ check_bucket l key b now
  | none ↦ check_new l key now
]

-- `Retry-After` of a refusal, in seconds (http/guards.rs, `RateLimit::check`): `as_secs().max(1)`.
unfoldable pub header_secs : ℕ → ℕ
header_secs retry_after = max (retry_after / nanos_per_sec) 1
