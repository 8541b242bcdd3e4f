-- ===== src/Store/Writer.antt =====
-- store/writer.rs: the commands, one batch in one transaction, and the answers to the callers.
-- The tables of the admin lane are a parameter, with the statements on them: `admin w x` is `none`
-- for an error, and else the tables and whether the write applied. Any command that runs SQL may
-- also fail for a reason of SQLite's own (I/O, a full disk, a decryption in `reseal_all`): the
-- parameter `broken n` says whether the command after `n` others of the batch does. A caller that
-- waits for an answer is a number.
use session_broker.Base.{
  ℕ, ◌∷◌, [], ◌++◌, Bool, true, false, ◌&&◌, ◌+◌, List, map, Option, none, some, if◌then◌else◌,
}
use session_broker.Clock.{Timestamp}
use session_broker.Session.Types
use session_broker.Session.Types.{CustodyId, CustodyStatus}
use session_broker.Custody.Grant.{CustodyRow, Bytes}
use session_broker.Store.Rows.{Db, TxnRow, AuditRow, AuditOutcome}
use session_broker.Store.Statements.{
  insert_custody, update_custody_success, update_custody_failure, insert_session,
  update_session_progress, tombstone_session, insert_generation, update_generation_superseded,
  delete_generation, insert_txn, delete_expired_txns, insert_audit, prune_audit, reap,
}

pub data CustodyWrite : Type 0 where
  insert : CustodyRow → CustodyWrite
  success : CustodyId → Bytes → Bytes → Timestamp → Timestamp → Timestamp → CustodyWrite
  failure : CustodyId → CustodyStatus → ℕ → Timestamp → Timestamp → CustodyWrite

abbrev pub Caller : Type 0
Caller = ℕ

-- `session` holds the six commands that a `SessionMap` sends. Resealing rewrites ciphertexts only.
pub data Command (W : Type 0) : Type 0 where
  session : Types.Command → Command W
  insert_txn_row : TxnRow → Command W
  delete_expired : Timestamp → Command W
  custody : CustodyWrite → Caller → Command W
  admin : W → Option AuditRow → Caller → Command W
  audit : AuditRow → Command W
  prune : Timestamp → Command W
  reap_rows : Timestamp → Timestamp → Command W
  reseal ping shutdown : Command W

pub data Reply : Type 0 where
  done : Reply
  acted : Bool → Reply
  failed : Reply

unfoldable pub apply_session : Types.Command → Db → Option Db
apply_session (Types.Command.insert_session row) db = insert_session db row
apply_session (Types.Command.update_session_progress sid n idle_exp) db =
    some (update_session_progress db sid n idle_exp)
apply_session (Types.Command.tombstone_session sid now) db = some (tombstone_session db sid now)
apply_session (Types.Command.insert_generation sid n hash created_at active_until) db =
    insert_generation db sid n hash created_at active_until
apply_session (Types.Command.supersede_generation hash at) db =
    some (update_generation_superseded db hash at)
apply_session (Types.Command.delete_generation hash) db = some (delete_generation db hash)

unfoldable pub apply_custody : CustodyWrite → Db → Option Db
apply_custody (insert row) db = insert_custody db row
apply_custody (success c refresh_tok access_tok access_exp next_refresh now) db =
    some (update_custody_success db c refresh_tok access_tok access_exp next_refresh now)
apply_custody (failure c status fail_count next_refresh now) db =
    some (update_custody_failure db c status fail_count next_refresh now)

-- The audit row of an admin write that did nothing says so.
unfoldable pub audit_of : ℕ → Bool → AuditRow → AuditRow
audit_of reason true row = row
audit_of reason false row = record row { outcome = AuditOutcome.failure; reason = some reason }

abbrev pub with_audit : ℕ → Bool → Option AuditRow → Db → Db
with_audit reason outcome none db = db
with_audit reason outcome (some row) db = insert_audit db (audit_of reason outcome row)

-- What the loop of `apply_batch` has: the transaction, and the answers to give on commit.
pub record Batch (X : Type 0) : Type 0 where
  pub db : Db
  pub tables : X
  pub acks : List Caller
  pub admin_acks : List (Caller × Bool)
  pub stops : Bool
  pub applied : ℕ

-- What is on disk: the tables of this lane, and of the admin's.
pub record Disk (X : Type 0) : Type 0 where
  pub db : Db
  pub tables : X

pub record BatchOutcome (X : Type 0) : Type 0 where
  pub disk : Disk X
  pub committed : Bool
  pub acks : List Caller
  pub admin_acks : List (Caller × Bool)
  pub stops : Bool

module _ {X : Type 0} where
  abbrev pub on_db : Batch X → Option Db → Option (Batch X)
  on_db b none = none
  on_db b (some db) = some (record b { db = db })

  abbrev pub acked : Caller → Option (Batch X) → Option (Batch X)
  acked caller none = none
  acked caller (some b) = some (record b { acks = b.acks ++ caller ∷ [] })

  abbrev pub on_admin :
      ℕ → Option AuditRow → Caller → Batch X → Option (X × Bool) → Option (Batch X)
  on_admin reason row caller b none = none
  on_admin reason row caller b (some (x, outcome)) = some (record b {
    db = with_audit reason outcome row b.db;
    tables = x;
    admin_acks = b.admin_acks ++ (caller, outcome) ∷ [];
  })

  abbrev pub begin : Disk X → Batch X
  begin d = record {
    db = d.db;
    tables = d.tables;
    acks = [];
    admin_acks = [];
    stops = false;
    applied = 0;
  }

  unfoldable pub finish : Disk X → Bool → Batch X → BatchOutcome X
  finish d true b = record {
    disk = record { db = b.db; tables = b.tables };
    committed = true;
    acks = b.acks;
    admin_acks = b.admin_acks;
    stops = b.stops;
  }
  finish d false b = record {
    disk = d;
    committed = false;
    acks = b.acks;
    admin_acks = b.admin_acks;
    stops = b.stops;
  }

  -- The answers that `run` sends after a batch. A caller that gets none finds its channel dropped,
  -- which is an error too.
  unfoldable pub replies : BatchOutcome X → List (Caller × Reply)
  replies r =
      if r.committed
      then map (λ c. (c, done)) r.acks ++ map (λ a. (a.0, acted a.1)) r.admin_acks
      else map (λ c. (c, failed)) r.acks ++ map (λ a. (a.0, failed)) r.admin_acks

module _ {X W : Type 0} (statement : W → X → Option (X × Bool)) (unapplied_reason : W → ℕ)
    (broken : ℕ → Bool) where
  -- The effect of a command whose SQL does not fail for SQLite's own reasons.
  unfoldable pub execute : Command W → Batch X → Option (Batch X)
  unfolding apply_session apply_custody
  execute (session cmd) b = on_db b (apply_session cmd b.db)
  execute (insert_txn_row row) b = on_db b (insert_txn b.db row)
  execute (delete_expired before) b = some (record b { db = delete_expired_txns b.db before })
  execute (custody write caller) b = acked caller (on_db b (apply_custody write b.db))
  execute (admin w row caller) b = on_admin (unapplied_reason w) row caller b (statement w b.tables)
  execute (audit row) b = some (record b { db = insert_audit b.db row })
  execute (prune before) b = some (record b { db = prune_audit b.db before })
  execute (reap_rows dead_before txn_before) b =
      some (record b { db = reap b.db dead_before txn_before })
  execute reseal b = some b
  execute ping b = some b
  execute shutdown b = some (record b { stops = true })

  -- `Ping` and `Shutdown` run no SQL.
  abbrev pub runs_sql : Command W → Bool
  runs_sql ping = false
  runs_sql shutdown = false
  runs_sql _ = true

  abbrev pub counted : Option (Batch X) → Option (Batch X)
  counted none = none
  counted (some b) = some (record b { applied = b.applied + 1 })

  unfoldable pub step : Command W → Batch X → Option (Batch X)
  unfolding execute
  step c b = if runs_sql c && broken b.applied then none else counted (execute c b)

  -- The `for`: where it ends, and whether by the last command.
  unfoldable pub run_commands : List (Command W) → Batch X → Batch X × Bool
  run_commands [] b = (b, true)
  run_commands (c ∷ cs) b = elim (step c b) [ some b' ↦ run_commands cs b' | none ↦ (b, false) ]

  -- `begins` and `commits` say whether SQLite could begin and commit the transaction.
  unfoldable pub apply_batch : Bool → Bool → Disk X → List (Command W) → BatchOutcome X
  unfolding run_commands finish
  apply_batch begins commits d batch =
      let (b, last) = run_commands batch (begin d) in
      if begins then finish d (last && commits) b else finish d false (begin d)
