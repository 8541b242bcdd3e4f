-- ===== src/Ratelimit/Retry.antt =====
-- When a refused caller is let in again, and what the `Retry-After` header says of it.
use native.Mathlib.Nat.{
  le-div_iff_mul-le, mul-div-le, div-mul-le_self, lt-div-mul-add, mul-lt-mul_of_pos_right,
  mul-le-mul_right,
}
use mathlib.Core.Path.{subst}
use session_broker.Base.{
  ℕ, ◌+◌, ◌-◌, ◌*◌, ◌/◌, ◌%◌, ◌^◌, ◌≤◌, ◌<◌, ◌≡◌, ◌≢◌, ◌↔◌, Bool, true, false, ◌∙◌, arith, get, max,
  min, inl, inr, Bool-cases, some, refl, sym, get-insert,
}
use session_broker.Ratelimit.Limiter.{
  Key, Instant, Quota, deny, is_allowed, Limiter, Bucket, check_at, check_bucket, scale,
  capacity_tokens, per_nanos, refilled, refill, u64, u64_max, wait_nanos, header_secs,
  nanos_per_sec,
}
use session_broker.Ratelimit.Budget.{IsQuota}

-- What a refused check leaves in the bucket.
abbrev drained : ℕ → Instant → Bucket
drained tokens now = record { tokens = tokens; last = now }

div_iff : (x y p : ℕ) → 0 < p → (x ≤ y / p) ↔ (x * p ≤ y)
div_iff x y p h = le-div_iff_mul-le h

le-mul : (a b : ℕ) → 1 ≤ b → a ≤ a * b
le-mul a b h = grind arith

refill-drained :
    (q : Quota) (tokens d : ℕ) (now : Instant)
    → IsQuota q
    → d * capacity_tokens q < 2 ^ 63
    → refill q (drained tokens now) (now + d) ≡ d * capacity_tokens q / q.per
unfolding refill
refill-drained q tokens d now ok small =
    let short : u64 (now + d - now) ≡ d =
      omega (arith, le-mul d (capacity_tokens q) (omega arith)) in
    let unsaturated : min (d * capacity_tokens q) u64_max ≡ d * capacity_tokens q = omega arith in
    let exact : per_nanos q ≡ q.per = omega arith in rw (short, unsaturated, exact)

-- Whether a drained bucket holds a whole token `d` nanoseconds later.
refilled_enough :
    (q : Quota) (tokens d : ℕ) (now : Instant)
    → IsQuota q
    → tokens < scale
    → d * capacity_tokens q < 2 ^ 63
    → (scale ≤ refilled q (drained tokens now) (now + d))
      ↔ ((scale - tokens) * q.per ≤ d * capacity_tokens q)
unfolding refilled
refilled_enough q tokens d now ok low small =
    let x = d * capacity_tokens q / q.per in
    let got = refill-drained q tokens d now ok small in
    let iff = div_iff (scale - tokens) (d * capacity_tokens q) q.per (omega arith) in
    let bound : q.per * x ≤ d * capacity_tokens q = mul-div-le (d * capacity_tokens q) q.per in
    let half : x < 2 ^ 63 = omega (arith, bound, le-mul x q.per (omega arith)) in
    (λ h. iff.0 (omega (arith, got, h)), λ h. omega (arith, got, iff.1 h, half))

abbrev pub check_again : Limiter → Key → Instant → ℕ → Bool
check_again l key now d = is_allowed (check_at (check_at l key now).0 key (now + d)).1

denied_bucket :
    (l : Limiter) (key : Key) (b : Bucket) (now : Instant)
    → get key l.buckets ≡ some b
    → refilled l.quota b now < scale
    → let l' = (check_at l key now).0 in
      (get key l'.buckets ≡ some (drained (refilled l.quota b now) now)) × (l'.quota ≡ l.quota)
unfolding check_at check_bucket
denied_bucket l key b now at low =
    ground (arith, get-insert key key (drained (refilled l.quota b now) now) l.buckets)

check_known :
    (l : Limiter) (key : Key) (b : Bucket) (now : Instant)
    → get key l.buckets ≡ some b
    → (is_allowed (check_at l key now).1 ≡ true) ↔ (scale ≤ refilled l.quota b now)
unfolding check_at check_bucket is_allowed
check_known l key b now at = ground arith

check_known_by :
    (l : Limiter) (q : Quota) (key : Key) (b : Bucket) (now : Instant)
    → l.quota ≡ q
    → get key l.buckets ≡ some b
    → (is_allowed (check_at l key now).1 ≡ true) ↔ (scale ≤ refilled q b now)
check_known_by l q key b now same at =
    subst (λ (p : Quota). (is_allowed (check_at l key now).1 ≡ true) ↔ (scale ≤ refilled p b now))
      same (check_known l key b now at)

check_denied :
    (l : Limiter) (key : Key) (b : Bucket) (now : Instant)
    → get key l.buckets ≡ some b
    → refilled l.quota b now < scale
    → (check_at l key now).1 ≡ deny (max (wait_nanos l.quota (refilled l.quota b now)) 1)
unfolding check_at check_bucket
check_denied l key b now at low = ground arith

-- A key whose bucket holds less than one token is refused, and a second check `d` nanoseconds
-- later is allowed exactly when the rate `burst / per` makes up the missing part of a token in
-- `d`. The conditions: a quota whose burst is a positive `u32` and whose period has 2 to
-- 2^64 - 1 nanoseconds, and a `d` whose refill stays below 2^63.
pub refused-check_again :
    (l : Limiter) (key : Key) (b : Bucket) (now : Instant) (d : ℕ)
    → IsQuota l.quota
    → get key l.buckets ≡ some b
    → refilled l.quota b now < scale
    → d * capacity_tokens l.quota < 2 ^ 63
    → (is_allowed (check_at l key now).1 ≡ false)
      × ((check_again l key now d ≡ true)
          ↔ ((scale - refilled l.quota b now) * l.quota.per ≤ d * capacity_tokens l.quota))
unfolding is_allowed
refused-check_again l key b now d ok at low small =
    let l' = (check_at l key now).0 in
    let left = denied_bucket l key b now at low in
    let again =
      check_known_by l' l.quota key (drained (refilled l.quota b now) now) (now + d) left.1
        left.0 in
    let enough = refilled_enough l.quota (refilled l.quota b now) d now ok low small in
    (
      rw (check_denied l key b now at low) refl,
      (λ h. enough.0 (again.0 h), λ h. again.1 (enough.1 h)),
    )

wait_exact :
    (q : Quota) (t : ℕ)
    → IsQuota q
    → (scale - t) * q.per < 2 ^ 63
    → let w = wait_nanos q t in
      (w * capacity_tokens q ≤ (scale - t) * q.per)
      × ((scale - t) * q.per < (w + 1) * capacity_tokens q)
unfolding wait_nanos
wait_exact q t ok small =
    let exact : per_nanos q ≡ q.per = omega arith in
    let unsaturated : min ((scale - t) * q.per) u64_max ≡ (scale - t) * q.per = omega arith in
    let positive : max (capacity_tokens q) 1 ≡ capacity_tokens q = omega arith in
    let some_tokens : 0 < capacity_tokens q = omega arith in
    rw (exact, unsaturated, positive)
      (
        div-mul-le_self ((scale - t) * q.per) (capacity_tokens q),
        omega (arith, lt-div-mul-add {a = (scale - t) * q.per} some_tokens),
      )

deny-inj : (a b : ℕ) → deny a ≡ deny b → a ≡ b
deny-inj a b h = cc

refused-low :
    (l : Limiter) (key : Key) (b : Bucket) (now : Instant) (w : ℕ)
    → get key l.buckets ≡ some b
    → (check_at l key now).1 ≡ deny w
    → refilled l.quota b now < scale
unfolding check_at check_bucket
refused-low l key b now w at refused = ground arith

-- A refusal whose wait is more than a second and no whole number of seconds: a caller who obeys
-- its `Retry-After`, which drops the fraction, is refused again, and one who adds a second is
-- let in. The conditions: a quota whose burst is a positive `u32` and whose period has 2 to
-- 2^64 - 1 nanoseconds; and `scale * per` plus a second's refill stays below 2^63, which a
-- burst of 1,000 in an hour meets.
pub header_secs-check_at :
    (l : Limiter) (key : Key) (b : Bucket) (now : Instant) (w : ℕ)
    → IsQuota l.quota
    → get key l.buckets ≡ some b
    → (check_at l key now).1 ≡ deny w
    → nanos_per_sec < w
    → w % nanos_per_sec ≢ 0
    → scale * l.quota.per + nanos_per_sec * capacity_tokens l.quota < 2 ^ 63
    → (check_again l key now (header_secs w * nanos_per_sec) ≡ false)
      × (check_again l key now (header_secs w * nanos_per_sec + nanos_per_sec) ≡ true)
unfolding header_secs
header_secs-check_at l key b now w ok at refused long odd small =
    let t = refilled l.quota b now in
    let c = capacity_tokens l.quota in
    let h = header_secs w * nanos_per_sec in
    let low : t < scale = refused-low l key b now w at refused in
    let need : (scale - t) * l.quota.per ≤ scale * l.quota.per =
      mul-le-mul_right l.quota.per (omega arith) in
    let is_w : w ≡ wait_nanos l.quota t = omega (
      arith,
      deny-inj w (max (wait_nanos l.quota t) 1) (sym refused ∙ check_denied l key b now at low),
    ) in
    let exact = wait_exact l.quota t ok (omega (arith, need)) in
    let floor : w * c ≤ (scale - t) * l.quota.per = rw is_w exact.0 in
    let ceiling : (scale - t) * l.quota.per < (w + 1) * c = rw is_w exact.1 in
    let before : h * c < w * c = mul-lt-mul_of_pos_right (omega arith) (omega arith) in
    let after : (w + 1) * c ≤ (h + nanos_per_sec) * c = mul-le-mul_right c (omega arith) in
    let early = refused-check_again l key b now h ok at low (omega (arith, need, before, floor)) in
    let late =
      refused-check_again l key b now (h + nanos_per_sec) ok at low
        (omega (arith, need, before, floor)) in
    let never : check_again l key now h ≡ true → ⊥ =
      λ allowed. omega (arith, early.1.0 allowed, floor, before) in
    (
      elim (Bool-cases (check_again l key now h)) [
        | inl allowed ↦ elim (never allowed) [ ]
        | inr denied ↦ denied
      ],
      late.1.1 (omega (arith, ceiling, after)),
    )
