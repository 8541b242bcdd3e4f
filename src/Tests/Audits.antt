-- ===== src/Tests/Audits.antt =====
-- A sink for one row: an event is taken, the next is dropped, the writer catches up, and the third
-- event comes after a row about the gap.
use session_broker.Base.{ℕ, ◌+◌, ◌≡◌, refl, ◌∷◌, [], true, false, none, some, get, insert}
use session_broker.Clock.{Timestamp, epoch}
use session_broker.Store.Rows.{AuditAction, ActorKind, AuditOutcome, AuditRow}
use session_broker.Store.Writer.{audit}
use session_broker.Audit.Sink.{
  default_config, AuditConfig, refused, passed, entering, entered, check_depth, advance, Sink,
  SubjectMode, new, send, enqueue, drop_row, announce_gap, record_event, pseudonymise, prune_old,
  should_record, count_audits, release, gap_row,
}
use session_broker.Audit.Events.{events}

program : Unit {0}
unfolding check_depth advance send enqueue drop_row announce_gap record_event pseudonymise prune_old
    should_record count_audits release events get insert
program = tt

abbrev noon : Timestamp
noon = epoch + 1_700_000_000

abbrev config : AuditConfig
config = record {
  retention_days = 90;
  queue_capacity = 1;
  coalesce_secs = 300;
  subject_mode = SubjectMode.hashed;
}

abbrev pseudonym : ℕ → ℕ
pseudonym value = value + 1000

abbrev event : AuditRow
event = record {
  at = noon;
  action = AuditAction.other 4;
  outcome = AuditOutcome.success;
  actor_kind = ActorKind.user;
  actor_id = some 3;
  subject = some 3;
  reason = none;
}

abbrev one : Sink ℕ
one = record_event pseudonym event (new config)

abbrev two : Sink ℕ
two = record_event pseudonym event one

abbrev stored : AuditRow
stored = record event { actor_id = some 1003; subject = some 1003 }

two_lem : (two.queue ≡ audit stored ∷ []) × (two.depth ≡ 1) × (two.pending_gap ≡ 1)
unfolding program
two_lem = (refl, refl, refl)

abbrev caught_up : Sink ℕ
caught_up = release two.queue (record two { queue = [] })

abbrev three : Sink ℕ
three = record_event pseudonym event caught_up

three_lem : (three.queue ≡ audit (gap_row 1 noon) ∷ audit stored ∷ []) × (three.depth ≡ 2)
unfolding program
three_lem = (refl, refl)

-- Two threads: both find room for one row, a third call is refused while the second waits, and the
-- second then carries the gap of that third one.
abbrev row : AuditRow
row = stored

abbrev counted : Sink ℕ
counted = (advance entering row (advance passed row (new config)).0).0

abbrev first_in : Sink ℕ
first_in = (advance entered row counted).0

abbrev dropped_one : Sink ℕ
dropped_one = (advance refused row first_in).0

abbrev swapped : Sink ℕ
swapped = (advance passed row dropped_one).0

-- A second question within the window is answered with no, and one at its end with yes.
asked_thrice :
    let first = should_record {W = ℕ} 7 noon (new default_config) in
    (first.1 ≡ true)
    × ((should_record 7 (noon + 299) first.0).1 ≡ false)
    × ((should_record 7 (noon + 300) first.0).1 ≡ true)
unfolding program
asked_thrice = (refl, refl, refl)
