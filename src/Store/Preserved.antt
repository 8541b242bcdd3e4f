-- ===== src/Store/Preserved.antt =====
-- store/repo.rs and store/writer.rs: every statement, command and batch keeps keys and references.
use session_broker.Base.{
  true-false, none-some, some-inj, ℕ, ◌≡◌, refl, sym, ap, ◌∙◌, ◌∷◌, [], Bool, true, false, not,
  ◌&&◌, List, Option, none, some, inl, inr, Option-cases, if◌then◌else◌, get, HasUniqueKeys, arith,
  get-insert, insert-HasUniqueKeys, delete_where-HasUniqueKeys,
}
use mathlib.Core.Path.{subst}
use session_broker.Clock.{Timestamp}
use session_broker.Session.Types
use session_broker.Store.Writer.{
  CustodyWrite, apply_session, apply_custody, Command, session, insert_txn_row, delete_expired,
  custody, admin, audit, prune, reap_rows, reseal, ping, shutdown, Caller, Batch, Disk, on_db,
  acked, on_admin, begin, step, execute, counted, runs_sql, apply_batch, with_audit,
}
use session_broker.Session.Types.{Sid, CustodyId, TokenHash, SessionRow, CustodyStatus}
use session_broker.Custody.Grant.{CustodyRow}
use session_broker.Store.Rows.{StoredSession, TxnRow, AuditRow, Db}
use session_broker.Store.Statements.{
  is_free, insert_custody, update_custody_success, update_custody_failure, insert_session,
  update_session_progress, tombstone_session, insert_generation, update_generation_superseded,
  delete_generation, stored, with_success, with_failure, with_progress, with_tombstone,
  with_superseded, delete_expired_txns, insert_txn, insert_audit, prune_audit, is_stale,
}
use session_broker.Store.Reaper.{IsIntegral, IsNumbered}
use session_broker.Store.Integrity.{
  insert_custody-IsIntegral, update_custodies-IsIntegral, update_sessions-IsIntegral,
  update_generations-IsIntegral, insert_session-IsIntegral, insert_generation-IsIntegral,
  delete_generation-IsIntegral, reap-IsIntegral, delete_where-origin, append-IsNumbered,
  younger_audit-IsNumbered,
}
use session_broker.Store.Atomic.{
  fine_counted, replay, replay_stop, replay-step, apply_batch-IsAllOrNothing,
}

-- What a statement gives, if it gives anything, is integral.
abbrev Keeps : Option Db → Type 0
Keeps o = (db : Db) → o ≡ some db → IsIntegral db

Keeps-none : Keeps none
Keeps-none db h = elim (none-some h) [ ]

Keeps-some : (db : Db) → IsIntegral db → Keeps (some db)
Keeps-some db ok db' h = subst IsIntegral (some-inj db db' h) ok

Keeps-if : (b : Bool) (db : Db) → (b ≡ true → IsIntegral db) → Keeps (if b then some db else none)
Keeps-if true db ok = Keeps-some db (ok refl)
Keeps-if false db ok = Keeps-none

right_false : (a b : Bool) → (a && not b) ≡ true → b ≡ false
right_false true false h = refl
right_false true true h = sym h
right_false false b h = elim (true-false (sym h)) [ ]

pub apply_session-IsIntegral :
    (cmd : Types.Command) (db db' : Db)
    → IsIntegral db
    → apply_session cmd db ≡ some db'
    → IsIntegral db'
unfolding apply_session insert_session update_session_progress tombstone_session insert_generation
    update_generation_superseded delete_generation
apply_session-IsIntegral (Types.Command.insert_session row) db db' ok =
    Keeps-if _ _
      (λ fine. insert_session-IsIntegral db ok (stored db row) (
        right_false (is_free (get row.sid db.sessions)) (is_free (get row.custody_id db.custodies))
          fine))
      db'
apply_session-IsIntegral (Types.Command.update_session_progress sid n idle_exp) db db' ok =
    Keeps-some _
      (update_sessions-IsIntegral db ok sid (with_progress n idle_exp) (λ s. refl) (λ s. refl)) db'
apply_session-IsIntegral (Types.Command.tombstone_session sid now) db db' ok =
    Keeps-some _ (update_sessions-IsIntegral db ok sid (with_tombstone now) (λ s. refl) (λ s. refl))
      db'
apply_session-IsIntegral (Types.Command.insert_generation sid n hash created_at active_until) db db'
      ok =
    Keeps-if _ _
      (λ fine.
        insert_generation-IsIntegral db ok _
          (right_false (is_free (get hash db.generations)) (is_free (get sid db.sessions)) fine))
      db'
apply_session-IsIntegral (Types.Command.supersede_generation hash at) db db' ok =
    Keeps-some _
      (update_generations-IsIntegral db ok hash (with_superseded at) (λ g. refl) (λ g. refl)) db'
apply_session-IsIntegral (Types.Command.delete_generation hash) db db' ok =
    Keeps-some _ (delete_generation-IsIntegral db ok hash) db'

pub apply_custody-IsIntegral :
    (write : CustodyWrite) (db db' : Db)
    → IsIntegral db
    → apply_custody write db ≡ some db'
    → IsIntegral db'
unfolding apply_custody insert_custody update_custody_success update_custody_failure
apply_custody-IsIntegral (CustodyWrite.insert row) db db' ok =
    Keeps-if _ _ (λ fine. insert_custody-IsIntegral db ok row) db'
apply_custody-IsIntegral (CustodyWrite.success c refresh_tok access_tok access_exp next_refresh now)
      db db' ok =
    Keeps-some _
      (update_custodies-IsIntegral db ok c
        (with_success refresh_tok access_tok access_exp next_refresh now) (λ row. refl))
      db'
apply_custody-IsIntegral (CustodyWrite.failure c status fail_count next_refresh now) db db' ok =
    Keeps-some _
      (update_custodies-IsIntegral db ok c (with_failure status fail_count next_refresh now)
        (λ row. refl))
      db'

-- A change that leaves the tables with references alone.
same_tables :
    (db db' : Db)
    → db'.custodies ≡ db.custodies
    → db'.sessions ≡ db.sessions
    → db'.generations ≡ db.generations
    → HasUniqueKeys db'.txns
    → ((t : ℕ) (row : TxnRow) → get t db'.txns ≡ some row → row.txn_id ≡ t)
    → IsNumbered 0 db'.next_seq db'.audit
    → IsIntegral db
    → IsIntegral db'
same_tables db db' c s g unique keys numbered ok = record {
  custodies_unique = subst HasUniqueKeys (sym c) ok.custodies_unique;
  sessions_unique = subst HasUniqueKeys (sym s) ok.sessions_unique;
  generations_unique = subst HasUniqueKeys (sym g) ok.generations_unique;
  custody_key = λ k row h. ok.custody_key k row (ap (get k) (sym c) ∙ h);
  session_key = λ k x h. ok.session_key k x (ap (get k) (sym s) ∙ h);
  generation_key = λ k x h. ok.generation_key k x (ap (get k) (sym g) ∙ h);
  session_custody = λ k x h.
      ap (λ (t : List (ℕ × CustodyRow)). is_free (get x.row.custody_id t)) c
      ∙ ok.session_custody k x (ap (get k) (sym s) ∙ h);
  generation_session = λ k x h.
      ap (λ (t : List (ℕ × StoredSession)). is_free (get x.sid t)) s
      ∙ ok.generation_session k x (ap (get k) (sym g) ∙ h);
  txns_unique = unique;
  txn_key = keys;
  audit_numbered = numbered;
}

insert_audit-IsIntegral :
    (row : AuditRow) (db : Db) → IsIntegral db → IsIntegral (insert_audit db row)
unfolding insert_audit
insert_audit-IsIntegral row db ok =
    same_tables db _ refl refl refl ok.txns_unique ok.txn_key
      (append-IsNumbered 0 db.next_seq db.audit row ok.audit_numbered) ok

prune_audit-IsIntegral :
    (before : Timestamp) (db : Db) → IsIntegral db → IsIntegral (prune_audit db before)
unfolding prune_audit
prune_audit-IsIntegral before db ok =
    same_tables db _ refl refl refl ok.txns_unique ok.txn_key
      (younger_audit-IsNumbered before 0 db.next_seq db.audit ok.audit_numbered) ok

delete_expired_txns-IsIntegral :
    (before : Timestamp) (db : Db) → IsIntegral db → IsIntegral (delete_expired_txns db before)
unfolding delete_expired_txns
delete_expired_txns-IsIntegral before db ok =
    same_tables db _ refl refl refl
      (delete_where-HasUniqueKeys (is_stale before) db.txns ok.txns_unique)
      (λ t row at.
        ok.txn_key t row (delete_where-origin t (is_stale before) db.txns row ok.txns_unique at).0)
      ok.audit_numbered ok

insert_txn-IsIntegral :
    (row : TxnRow) (db db' : Db) → IsIntegral db → insert_txn db row ≡ some db' → IsIntegral db'
unfolding insert_txn
insert_txn-IsIntegral row db db' ok =
    Keeps-if _ _
      (λ fine.
        same_tables db _ refl refl refl (insert-HasUniqueKeys row.txn_id row db.txns ok.txns_unique)
          (λ t r at. ground (arith, get-insert row.txn_id t row db.txns, ok.txn_key t r))
          ok.audit_numbered ok)
      db'

audited-IsIntegral :
    (reason : ℕ) (outcome : Bool) (row : Option AuditRow) (db : Db)
    → IsIntegral db
    → IsIntegral (with_audit reason outcome row db)
audited-IsIntegral reason outcome none db ok = ok
audited-IsIntegral reason outcome (some row) db ok = insert_audit-IsIntegral _ db ok

module _ {X W : Type 0} (statement : W → X → Option (X × Bool)) (unapplied_reason : W → ℕ)
    (broken : ℕ → Bool) where
  on_db-IsIntegral :
      (b b' : Batch X) (o : Option Db)
      → ((db : Db) → o ≡ some db → IsIntegral db)
      → on_db b o ≡ some b'
      → IsIntegral b'.db
  on_db-IsIntegral b b' none keeps h = elim (none-some h) [ ]
  on_db-IsIntegral b b' (some db) keeps h =
      subst (λ (x : Batch X). IsIntegral x.db) (some-inj _ b' h) (keeps db refl)

  acked-IsIntegral :
      (caller : Caller) (b b' : Batch X) (o : Option Db)
      → ((db : Db) → o ≡ some db → IsIntegral db)
      → acked caller (on_db b o) ≡ some b'
      → IsIntegral b'.db
  acked-IsIntegral caller b b' none keeps h = elim (none-some h) [ ]
  acked-IsIntegral caller b b' (some db) keeps h =
      subst (λ (x : Batch X). IsIntegral x.db) (some-inj _ b' h) (keeps db refl)

  on_admin-IsIntegral :
      (reason : ℕ) (row : Option AuditRow) (caller : Caller) (b b' : Batch X)
      (o : Option (X × Bool))
      → IsIntegral b.db
      → on_admin reason row caller b o ≡ some b'
      → IsIntegral b'.db
  on_admin-IsIntegral reason row caller b b' none ok h = elim (none-some h) [ ]
  on_admin-IsIntegral reason row caller b b' (some (x, outcome)) ok h =
      subst (λ (y : Batch X). IsIntegral y.db) (some-inj _ b' h)
        (audited-IsIntegral reason outcome row b.db ok)

  moved : (b'' b' : Batch X) → IsIntegral b''.db → some b'' ≡ some b' → IsIntegral b'.db
  moved b'' b' ok h = subst (λ (x : Batch X). IsIntegral x.db) (some-inj b'' b' h) ok

  execute-IsIntegral :
      (c : Command W) (b b' : Batch X)
      → IsIntegral b.db
      → execute statement unapplied_reason broken c b ≡ some b'
      → IsIntegral b'.db
  unfolding execute
  execute-IsIntegral (session cmd) b b' ok =
      on_db-IsIntegral b b' (apply_session cmd b.db) (λ db. apply_session-IsIntegral cmd b.db db ok)
  execute-IsIntegral (insert_txn_row row) b b' ok =
      on_db-IsIntegral b b' (insert_txn b.db row) (λ db. insert_txn-IsIntegral row b.db db ok)
  execute-IsIntegral (delete_expired before) b b' ok =
      moved _ b' (delete_expired_txns-IsIntegral before b.db ok)
  execute-IsIntegral (custody write caller) b b' ok =
      acked-IsIntegral caller b b' (apply_custody write b.db)
        (λ db. apply_custody-IsIntegral write b.db db ok)
  execute-IsIntegral (admin w row caller) b b' ok =
      on_admin-IsIntegral (unapplied_reason w) row caller b b' (statement w b.tables) ok
  execute-IsIntegral (audit row) b b' ok = moved _ b' (insert_audit-IsIntegral row b.db ok)
  execute-IsIntegral (prune before) b b' ok = moved _ b' (prune_audit-IsIntegral before b.db ok)
  execute-IsIntegral (reap_rows dead_before txn_before) b b' ok =
      moved _ b' (reap-IsIntegral b.db dead_before txn_before ok)
  execute-IsIntegral reseal b b' ok = moved _ b' ok
  execute-IsIntegral ping b b' ok = moved _ b' ok
  execute-IsIntegral shutdown b b' ok = moved _ b' ok

  counted-IsIntegral :
      (b' : Batch X) (o : Option (Batch X))
      → ((b1 : Batch X) → o ≡ some b1 → IsIntegral b1.db)
      → counted statement unapplied_reason broken o ≡ some b'
      → IsIntegral b'.db
  counted-IsIntegral b' none keeps h = elim (none-some h) [ ]
  counted-IsIntegral b' (some b1) keeps h = moved _ b' (keeps b1 refl) h

  step-IsIntegral :
      (c : Command W) (b b' : Batch X)
      → IsIntegral b.db
      → step statement unapplied_reason broken c b ≡ some b'
      → IsIntegral b'.db
  unfolding step
  step-IsIntegral c b b' ok h =
      counted-IsIntegral b' (execute statement unapplied_reason broken c b)
        (λ b1. execute-IsIntegral c b b1 ok)
        (fine_counted (runs_sql statement unapplied_reason broken c && broken b.applied) _ b' h)

  replay-IsIntegral :
      (cs : List (Command W)) (b b' : Batch X)
      → IsIntegral b.db
      → replay statement unapplied_reason broken cs b ≡ some b'
      → IsIntegral b'.db
  unfolding replay
  replay-IsIntegral [] b b' ok h = moved b b' ok h
  replay-IsIntegral (c ∷ cs) b b' ok h =
      elim (Option-cases (step statement unapplied_reason broken c b)) [
        | inl error ↦
            elim (none-some
              (sym (replay_stop statement unapplied_reason broken c cs b error) ∙ h)) [ ]
        | inr (b1, fine) ↦
            replay-IsIntegral cs b1 b' (step-IsIntegral c b b1 ok fine)
              (sym (replay-step statement unapplied_reason broken c cs b b1 fine) ∙ h)
      ]

  -- Whatever the commands of a batch are and whichever fail, if the tables' keys and references
  -- hold on disk before it, they hold after it, also when the batch is rolled back: the keys of
  -- custodies, sessions, generations and transactions are unique and those of their rows, each
  -- session has its custody and each generation its session, and the audit rows ascend by key,
  -- below the key that the next one gets.
  pub apply_batch-IsIntegral :
      (begins commits : Bool) (d : Disk X) (batch : List (Command W))
      → IsIntegral d.db
      → IsIntegral (apply_batch statement unapplied_reason broken begins commits d batch).disk.db
  apply_batch-IsIntegral begins commits d batch ok =
      elim (apply_batch-IsAllOrNothing statement unapplied_reason broken begins commits d batch) [
        | inl (committed, began, ended, b, ran, result, acks, same_acks, callers, told) ↦
            subst (λ (x : Disk X). IsIntegral x.db) (sym result)
              (replay-IsIntegral batch (begin d) b ok ran)
        | inr (lost, why, same, told) ↦ subst (λ (x : Disk X). IsIntegral x.db) (sym same) ok
      ]
