-- ===== src/Audit/Accounting.antt =====
-- audit.rs and store/writer.rs: what becomes of each event.
use session_broker.Base.{ℕ, ◌+◌, ◌^◌, ◌≤◌, ◌<◌, ◌≡◌, List, ◌*◌, length, All}
use session_broker.Store.Writer.{Command}
use session_broker.Audit.Sink.{AuditConfig, Sink, count_audits}
use session_broker.Audit.Calls.{Call, total, in_depth, to_come, held, IsPlain}
use session_broker.Audit.Events.{events}

module _ {W : Type 0} where
  pub record IsAccounted (config : AuditConfig) (threads n : ℕ) (ts : List (Command W))
      (calls : List Call) (s : Sink W) : Type 0 where
    pub same_config : s.config ≡ config
    pub few : length calls ≤ threads
    pub plain : All IsPlain calls
    pub queued : s.depth ≡ count_audits s.queue + total in_depth calls
    pub bounded : s.depth + total to_come calls + 1 ≤ config.queue_capacity + 2 * threads
    pub told : n < 2 ^ 64 → n ≡ events ts + events s.queue + s.pending_gap + total held calls
