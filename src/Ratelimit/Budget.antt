-- ===== src/Ratelimit/Budget.antt =====
-- ratelimit.rs: the credit of a key, and what a call takes from it.
use native.Mathlib.Nat.{mul-div-le}
use session_broker.Base.{
  ℕ, ◌+◌, ◌-◌, ◌*◌, ◌^◌, ◌≤◌, ◌<◌, ◌≡◌, ◌⊎◌, refl, ap, ◌∷◌, [], false, List, Option, none, some,
  min, leb, ◌==◌, if◌then◌else◌, get, length, arith, inl, inr, Bool-cases, Option-cases, get-insert,
  HasUniqueKeys, insert-HasUniqueKeys,
}
use session_broker.Ratelimit.Limiter.{
  Key, Instant, Quota, Decision, allow, deny, Bucket, Limiter, capacity_tokens, per_nanos, refill,
  refilled, scale, u64, u64_max, check_bucket, is_partial, retain_partial, first_bucket, admit,
  check_new, check_at,
}

-- A quota that the arithmetic fits: at least one token, and a window from two nanoseconds on.
abbrev pub IsQuota : Quota → Type 0
IsQuota q = (0 < q.burst) × (q.burst < 2 ^ 32) × (1 < q.per) × (q.per < 2 ^ 64)

u64-mul-le : (a c : ℕ) → u64 a * c ≤ a * c
u64-mul-le a c = grind arith

refill_le :
    (q : Quota) (b : Bucket) (now : Instant)
    → per_nanos q * refill q b now ≤ (now - b.last) * capacity_tokens q
unfolding refill
refill_le q b now = omega (
  arith,
  mul-div-le (min (u64 (now - b.last) * capacity_tokens q) u64_max) (per_nanos q),
  u64-mul-le (now - b.last) (capacity_tokens q),
)

mul_mono : (p a b : ℕ) → a ≤ b → p * a ≤ p * b
mul_mono p a b h = grind arith

sub_self_mul : (a c : ℕ) → (a - a) * c ≡ 0
sub_self_mul a c = grind arith

-- What a key may still spend at an instant, in tokens times nanoseconds: a key with no bucket has
-- the full budget.
pub credit : Quota → Option Bucket → Instant → ℕ
credit q none now = per_nanos q * capacity_tokens q
credit q (some b) now =
    min (per_nanos q * capacity_tokens q)
      (per_nanos q * b.tokens + (now - b.last) * capacity_tokens q)

refilled-credit :
    (q : Quota) (b : Bucket) (now : Instant)
    → per_nanos q * refilled q b now ≤ credit q (some b) now
unfolding refilled credit
refilled-credit q b now = omega (
  arith,
  refill_le q b now,
  mul_mono (per_nanos q) (refilled q b now) (b.tokens + refill q b now) (omega arith),
  mul_mono (per_nanos q) (refilled q b now) (capacity_tokens q) (omega arith),
)

pub credit-le :
    (q : Quota) (b : Option Bucket) (now : Instant)
    → credit q b now ≤ per_nanos q * capacity_tokens q
unfolding credit
credit-le q none now = omega arith
credit-le q (some b) now = omega arith

-- A bucket left at `now` with some tokens.
credit_fresh :
    (q : Quota) (tokens : ℕ) (now : Instant)
    → credit q (some (record { tokens = tokens; last = now })) now ≤ per_nanos q * tokens
unfolding credit
credit_fresh q tokens now = omega (arith, sub_self_mul now (capacity_tokens q))

-- Time gives at most its share of the budget.
pub credit_later :
    (q : Quota) (b : Option Bucket) (t1 t2 : Instant)
    → t1 ≤ t2
    → credit q b t2 ≤ credit q b t1 + (t2 - t1) * capacity_tokens q
unfolding credit
credit_later q none t1 t2 h = omega arith
credit_later q (some b) t1 t2 h =
    omega
      (arith, mul_mono (capacity_tokens q) (t2 - b.last) ((t1 - b.last) + (t2 - t1)) (omega arith))

module _ (q : Quota) (ok : IsQuota q) where
  -- A check of a key that has a bucket spends from its credit, or leaves it.
  spend_bucket :
      (b : Bucket) (now : Instant)
      → scale ≤ refilled q b now
      → credit q (some (record { tokens = refilled q b now - scale; last = now })) now
          + per_nanos q * scale
        ≤ credit q (some b) now
  spend_bucket b now enough = omega (
    arith,
    credit_fresh q (refilled q b now - scale) now,
    refilled-credit q b now,
    mul_mono (per_nanos q) ((refilled q b now - scale) + scale) (refilled q b now) (omega arith),
  )

  spend_first :
      (now : Instant)
      → credit q (some (first_bucket q now)) now + per_nanos q * scale ≤ credit q none now
  unfolding first_bucket credit
  spend_first now = omega (
    arith,
    sub_self_mul now (capacity_tokens q),
    mul_mono (per_nanos q) (u64 (capacity_tokens q + 2 ^ 64 - scale) + scale) (capacity_tokens q)
        (omega arith),
  )

  -- A full bucket may be forgotten: the key had its whole budget.
  forget_full :
      (b : Bucket) (now : Instant)
      → is_partial q now b ≡ false
      → credit q none now ≤ credit q (some b) now
  unfolding is_partial credit
  forget_full b now full =
      let enough : capacity_tokens q ≤ b.tokens + refill q b now = ground arith in
      omega (
        arith,
        refill_le q b now,
        mul_mono (per_nanos q) (capacity_tokens q) (b.tokens + refill q b now) enough,
      )

get-retain :
    (q : Quota) (now : Instant) (k : Key) (bs : List (ℕ × Bucket))
    → HasUniqueKeys bs
    → (get k (retain_partial q now bs) ≡ get k bs)
      ⊎ ((b : Bucket) × (get k bs ≡ some b)
          × (is_partial q now b ≡ false)
          × (get k (retain_partial q now bs) ≡ none))
unfolding get retain_partial
get-retain q now k [] u = inl refl
get-retain q now k ((j, b) ∷ bs) u = elim (get-retain q now k bs u.1) [
  | inl same ↦ elim (Bool-cases (j == k)) [
    | inl here ↦ elim (Bool-cases (is_partial q now b)) [
      | inl part ↦ inl (ground arith)
      | inr full ↦ inr (b, ground arith, full, ground arith)
    ]
    | inr other ↦ inl (ground arith)
  ]
  | inr (x, found, full, gone) ↦ elim (Bool-cases (j == k)) [
    | inl here ↦ absurd (ground arith)
    | inr other ↦ inr (x, ground arith, full, ground arith)
  ]
]

retain-HasUniqueKeys :
    (q : Quota) (now : Instant) (bs : List (ℕ × Bucket))
    → HasUniqueKeys bs
    → HasUniqueKeys (retain_partial q now bs)
unfolding retain_partial
retain-HasUniqueKeys q now [] u = tt
retain-HasUniqueKeys q now ((j, b) ∷ bs) u =
    ground (arith, retain-HasUniqueKeys q now bs u.1, get-retain q now j bs u.1)

abbrev pub spent : Key → Key → Decision → Quota → ℕ
spent key k (deny wait) q = 0
spent key k allow q = if key == k then per_nanos q * scale else 0

abbrev pub credit_of : Limiter → Key → Instant → ℕ
credit_of l k now = credit l.quota (get k l.buckets) now

-- What one check does: the quota stays, no key is doubled, and every key's credit pays for what
-- the key was allowed.
pub record Pays (l : Limiter) (key k : Key) (now : Instant) (r : Limiter × Decision) : Type 0 where
  pub quota_kept : r.0.quota ≡ l.quota
  pub unique : HasUniqueKeys r.0.buckets
  pub paid : credit_of r.0 k now + spent key k r.1 l.quota ≤ credit_of l k now

module _ (l : Limiter) (ok : IsQuota l.quota) (u : HasUniqueKeys l.buckets) (key k : Key)
    (now : Instant) where
  check_bucket-Pays :
      (b : Bucket) → get key l.buckets ≡ some b → Pays l key k now (check_bucket l key b now)
  unfolding check_bucket
  check_bucket-Pays b at =
      let r = refilled l.quota b now in
      elim (Bool-cases (leb scale r)) [
        | inl enough ↦
            rw (enough, check_bucket)
              (record {
                quota_kept = refl;
                unique = insert-HasUniqueKeys key _ l.buckets u;
                paid =
                    rw (get-insert key k _ l.buckets) ground (arith, spend_bucket l.quota ok b now);
              })
        | inr poor ↦
            rw (poor, check_bucket)
              (record {
                quota_kept = refl;
                unique = insert-HasUniqueKeys key _ l.buckets u;
                paid =
                    rw (get-insert key k _ l.buckets) ground
                      (arith, credit_fresh l.quota r now, refilled-credit l.quota b now);
              })
      ]

  -- Admitting a new key, over buckets in which this one's credit is no larger.
  admit-Pays :
      (bs : List (ℕ × Bucket))
      → HasUniqueKeys bs
      → get key l.buckets ≡ none
      → credit l.quota (get k bs) now ≤ credit_of l k now
      → Pays l key k now (admit (record l { buckets = bs }) key now)
  unfolding admit
  admit-Pays bs v missing less = record {
    quota_kept = refl;
    unique = insert-HasUniqueKeys key _ bs v;
    paid = rw (get-insert key k _ bs) (ground (arith, spend_first l.quota ok now));
  }

  retain_credit :
      credit l.quota (get k (retain_partial l.quota now l.buckets)) now ≤ credit_of l k now
  retain_credit = elim (get-retain l.quota now k l.buckets u) [
    | inl same ↦ omega (arith, ap (λ (o : Option Bucket). credit l.quota o now) same)
    | inr (b, found, full, gone) ↦ rw (found, gone) (forget_full l.quota ok b now full)
  ]

  check_new-Pays : get key l.buckets ≡ none → Pays l key k now (check_new l key now)
  unfolding check_new
  check_new-Pays missing =
      let bs = retain_partial l.quota now l.buckets in
      let v = retain-HasUniqueKeys l.quota now l.buckets u in
      elim (Bool-cases (leb l.capacity (length l.buckets))) [
        | inr room ↦ rw (room, check_new) (admit-Pays l.buckets u missing (omega arith))
        | inl full ↦ elim (Bool-cases (leb l.capacity (length bs))) [
          | inr room ↦
              rw (full, check_new) (rw (room, check_new) (admit-Pays bs v missing retain_credit))
          | inl still ↦
              rw (full, check_new)
                (rw (still, check_new)
                  (record { quota_kept = refl; unique = v; paid = omega (arith, retain_credit) }))
        ]
      ]

  pub check_at-Pays : Pays l key k now (check_at l key now)
  unfolding check_at
  check_at-Pays = elim (Option-cases (get key l.buckets)) [
    | inl missing ↦ rw (missing, check_at) (check_new-Pays missing)
    | inr (b, at) ↦ rw (at, check_at) (check_bucket-Pays b at)
  ]
