-- ===== src/Audit/Sink.antt =====
-- audit.rs, `AuditSink`. The writer's channel is the list `queue` of what it has not taken,
-- oldest first. `record` is modelled twice: as a call that runs alone, and as the atomic steps that
-- the calls of several threads interleave. The other calls are one step each. `depth` is an `i64`
-- that the code only adds 1 to, and takes the audit commands of a batch from. The channel to a
-- writer that has stopped is not modelled.
use session_broker.Base.{
  ℕ, suc, ◌+◌, ◌-◌, ◌*◌, ◌%◌, ◌^◌, ◌∷◌, [], ◌++◌, Bool, true, false, ◌||◌, List, Option, none, some,
  ltb, leb, ◌==◌, if◌then◌else◌, length, get, insert,
}
use session_broker.Clock.{Timestamp}
use session_broker.Store.Rows.{gap, ActorKind, user, system, failure, AuditRow}
use session_broker.Store.Writer.{Command, audit, prune}

pub data SubjectMode : Type 0 where
  as_given hashed : SubjectMode

pub record AuditConfig : Type 0 where
  pub retention_days : ℕ
  pub queue_capacity : ℕ
  pub coalesce_secs : ℕ
  pub subject_mode : SubjectMode

abbrev pub default_config : AuditConfig
default_config = record {
  retention_days = 90;
  queue_capacity = 8192;
  coalesce_secs = 300;
  subject_mode = SubjectMode.as_given;
}

-- `exchange_seen`, whose keys of three strings are numbers.
pub record Sink (W : Type 0) : Type 0 where
  pub config : AuditConfig
  pub queue : List (Command W)
  pub depth : ℕ
  pub pending_gap : ℕ
  pub exchange_seen : List (ℕ × Timestamp)

abbrev pub exchange_map_max : ℕ
exchange_map_max = 8192

abbrev pub queue_full : ℕ
queue_full = 1

abbrev hashed_option : (ℕ → ℕ) → Option ℕ → Option ℕ
hashed_option pseudonym none = none
hashed_option pseudonym (some value) = some (pseudonym value)

abbrev hashed_actor : (ℕ → ℕ) → ActorKind → Option ℕ → Option ℕ
hashed_actor pseudonym user id = hashed_option pseudonym id
hashed_actor pseudonym _ id = id

unfoldable pub pseudonymise : (ℕ → ℕ) → SubjectMode → AuditRow → AuditRow
pseudonymise pseudonym SubjectMode.as_given row = row
pseudonymise pseudonym SubjectMode.hashed row = record row {
  subject = hashed_option pseudonym row.subject;
  actor_id = hashed_actor pseudonym row.actor_kind row.actor_id;
}

abbrev pub gap_row : ℕ → Timestamp → AuditRow
gap_row dropped at = record {
  at = at;
  action = gap dropped;
  outcome = failure;
  actor_kind = system;
  actor_id = none;
  subject = none;
  reason = some queue_full;
}

-- The instant of `PruneAudit`; an `i64` is stored with a bias. It stops at the least instant, where
-- the code's subtraction overflows.
abbrev pub cutoff : ℕ → Timestamp → Timestamp
cutoff days now = now - days * 86400

abbrev is_recent : ℕ → Timestamp → Option Timestamp → Bool
is_recent window now none = false
is_recent window now (some last) = ltb now (last + window)

abbrev cleared : List (ℕ × Timestamp) → List (ℕ × Timestamp)
cleared seen = if leb exchange_map_max (length seen) then [] else seen

-- Where a call of `record` is: it found the queue full; it found room; it took the gap, and has
-- yet to count the row about it in `depth`, or to send it; it has yet to count its own row, or to
-- send it.
pub data Phase : Type 0 where
  refused passed : Phase
  announcing announced : ℕ → Phase
  entering entered : Phase

abbrev pub after_swap : ℕ → Phase
after_swap dropped = if ltb 0 dropped then announcing dropped else entering

module _ {W : Type 0} where
  abbrev pub new : AuditConfig → Sink W
  new config = record {
    config = config;
    queue = [];
    depth = 0;
    pending_gap = 0;
    exchange_seen = [];
  }

  unfoldable pub send : Command W → Sink W → Sink W
  send cmd s = record s { queue = s.queue ++ cmd ∷ [] }

  unfoldable pub enqueue : AuditRow → Sink W → Sink W
  unfolding send
  enqueue row s = send (audit row) (record s { depth = s.depth + 1 })

  -- `pending_gap` is a `u64`.
  unfoldable pub drop_row : Sink W → Sink W
  drop_row s = record s { pending_gap = (s.pending_gap + 1) % 2 ^ 64 }

  unfoldable pub announce_gap : Timestamp → Sink W → Sink W
  unfolding enqueue
  announce_gap at s =
      let swapped = record s { pending_gap = 0 } in
      if ltb 0 s.pending_gap then enqueue (gap_row s.pending_gap at) swapped else swapped

  -- `pseudonym` is the truncated SHA-256.
  unfoldable pub record_event : (ℕ → ℕ) → AuditRow → Sink W → Sink W
  unfolding pseudonymise enqueue drop_row announce_gap
  record_event pseudonym event s =
      let row = pseudonymise pseudonym s.config.subject_mode event in
      if leb s.config.queue_capacity s.depth
      then drop_row s
      else enqueue row (announce_gap row.at s)

  unfoldable pub check_depth : Sink W → Phase
  check_depth s = if leb s.config.queue_capacity s.depth then refused else passed

  -- One atomic step of a call, and where it is then, if it has not returned.
  unfoldable pub advance : Phase → AuditRow → Sink W → Sink W × Option Phase
  unfolding drop_row send
  advance refused row s = (drop_row s, none)
  advance passed row s = (record s { pending_gap = 0 }, some (after_swap s.pending_gap))
  advance (announcing dropped) row s = (record s { depth = s.depth + 1 }, some (announced dropped))
  advance (announced dropped) row s = (send (audit (gap_row dropped row.at)) s, some entering)
  advance entering row s = (record s { depth = s.depth + 1 }, some entered)
  advance entered row s = (send (audit row) s, none)

  abbrev pub transactional : (ℕ → ℕ) → Sink W → AuditRow → AuditRow
  transactional pseudonym s event = pseudonymise pseudonym s.config.subject_mode event

  unfoldable pub prune_old : Timestamp → Sink W → Sink W
  unfolding send
  prune_old now s =
      if s.config.retention_days == 0
      then s
      else send (prune (cutoff s.config.retention_days now)) s

  -- `coalesce_secs as i64` is negative from 2^63 on.
  unfoldable pub should_record : ℕ → Timestamp → Sink W → Sink W × Bool
  should_record key now s =
      let window = s.config.coalesce_secs in
      if window == 0 || leb (2 ^ 63) window
      then (s, true)
      else if is_recent window now (get key s.exchange_seen)
      then (s, false)
      else (record s { exchange_seen = insert key now (cleared s.exchange_seen) }, true)

  -- How many of the commands are audit commands.
  unfoldable pub count_audits : List (Command W) → ℕ
  count_audits [] = 0
  count_audits (audit row ∷ cs) = suc (count_audits cs)
  count_audits (_ ∷ cs) = count_audits cs

  -- What `apply_batch` does to the depth before it begins its transaction.
  unfoldable pub release : List (Command W) → Sink W → Sink W
  unfolding count_audits
  release batch s = record s { depth = s.depth - count_audits batch }
