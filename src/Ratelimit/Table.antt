-- ===== src/Ratelimit/Table.antt =====
-- ratelimit.rs: the table of buckets and its capacity.
use session_broker.Base.{
  ℕ, ◌+◌, ◌-◌, ◌≤◌, ◌≡◌, ◌∷◌, [], List, arith, get, length, inl, inr, Option-cases, some, insert,
}
use session_broker.Ratelimit.Limiter.{
  Key, Instant, Quota, Limiter, Bucket, check_at, retain_partial, check_bucket, check_new, admit,
  first_bucket, refilled, scale,
}

length-insert :
    (k : Key) (b : Bucket) (bs : List (ℕ × Bucket)) → length (insert k b bs) ≤ length bs + 1
unfolding insert
length-insert k b [] = omega arith
length-insert k b ((j, x) ∷ bs) = ground (arith, length-insert k b bs)

length-insert_known :
    (k : Key) (b x : Bucket) (bs : List (ℕ × Bucket))
    → get k bs ≡ some x
    → length (insert k b bs) ≡ length bs
unfolding insert get
length-insert_known k b x [] h = cc
length-insert_known k b x ((j, y) ∷ bs) h = ground (arith, length-insert_known k b x bs)

length-retain :
    (q : Quota) (now : Instant) (bs : List (ℕ × Bucket))
    → length (retain_partial q now bs) ≤ length bs
unfolding retain_partial
length-retain q now [] = omega arith
length-retain q now ((j, y) ∷ bs) = ground (arith, length-retain q now bs)

abbrev poor_bucket : Limiter → Bucket → Instant → Bucket
poor_bucket l b now = record { tokens = refilled l.quota b now; last = now }

abbrev spent_bucket : Limiter → Bucket → Instant → Bucket
spent_bucket l b now = record { tokens = refilled l.quota b now - scale; last = now }

abbrev pub IsWithin : Limiter → Type 0
IsWithin l = (length l.buckets ≤ l.capacity) × (1 ≤ l.capacity)

-- A call keeps the limiter within its capacity, which is at least one, if it was so before: a
-- full table drops what has refilled or refuses the new key.
pub check_at-IsWithin :
    (l : Limiter) (key : Key) (now : Instant) → IsWithin l → IsWithin (check_at l key now).0
unfolding check_at check_bucket check_new admit
check_at-IsWithin l key now (h, one) = elim (Option-cases (get key l.buckets)) [
  | inl missing ↦ ground (
    arith,
    length-retain l.quota now l.buckets,
    length-insert key (first_bucket l.quota now) l.buckets,
    length-insert key (first_bucket l.quota now) (retain_partial l.quota now l.buckets),
  )
  | inr (b, at) ↦ ground (
    arith,
    length-insert_known key (spent_bucket l b now) b l.buckets at,
    length-insert_known key (poor_bucket l b now) b l.buckets at,
  )
]
