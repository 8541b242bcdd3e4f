-- ===== src/Clock.antt =====
-- clock.rs
use session_broker.Base.{ℕ, ◌+◌, ◌-◌, ◌%◌, ◌^◌, ltb, if◌then◌else◌, min}

-- An `i64` number of seconds, stored as the number plus 2^63, so that the order is that of `ℕ`.
abbrev pub Timestamp : Type 0
Timestamp = ℕ

-- The instant 0 of the Unix epoch.
abbrev pub epoch : Timestamp
epoch = 2 ^ 63

-- `i64::MAX`.
abbrev pub last_instant : Timestamp
last_instant = 2 ^ 64 - 1

-- `secs as i64` wraps from 2^63 on, and `saturating_add` stops at both ends; the truncated
-- subtraction is the lower end.
unfoldable pub plus_secs : Timestamp → ℕ → Timestamp
plus_secs t secs =
    if ltb (secs % 2 ^ 64) (2 ^ 63)
    then min (t + secs % 2 ^ 64) last_instant
    else t - (2 ^ 64 - secs % 2 ^ 64)

-- The difference wraps; a negative one counts as 0.
unfoldable pub since : Timestamp → Timestamp → ℕ
since t earlier = let d = (t + 2 ^ 64 - earlier) % 2 ^ 64 in if ltb d (2 ^ 63) then d else 0
