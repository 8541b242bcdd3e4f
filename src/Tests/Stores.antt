-- ===== src/Tests/Stores.antt =====
-- A batch with a custody, a session and its first generation, and what the theorems on the store
-- say of it and of the disk that it leaves.
use session_broker.Base.{
  ℕ, ◌+◌, ◌≡◌, refl, ◌∷◌, [], true, false, not, Bool, List, none, some, Option, arith, get, insert,
  remove, update, delete_where, ◌==◌,
}
use session_broker.Clock.{Timestamp, epoch, plus_secs}
use session_broker.Session.Types
use session_broker.Session.Types.{
  SessionRow, alive, tombstoned, CustodyStatus, ok, default_policy, Resolution,
}
use session_broker.Session.Entry.{classify, session_expiry, resource_valid_until, find_gen}
use session_broker.Session.Map.{
  resolve, with_durability, entry_for, sid_for_hash, rehydrate_session, restored_entry, sort_gens,
  insert_gen, index_gens,
}
use session_broker.Custody.Grant.{CustodyRow}
use session_broker.Store.Rows.{TxnRow, AuditRow, AuditOutcome, AuditAction, ActorKind, Db, empty}
use session_broker.Store.Statements.{
  insert_custody, insert_session, insert_generation, update_session_progress, tombstone_session,
  update_generation_superseded, delete_generation, update_custody_success, update_custody_failure,
  insert_txn, take_txn, delete_expired_txns, insert_audit, prune_audit, younger_audit, reap,
  is_doomed, backs,
}
use session_broker.Store.Writer
use session_broker.Store.Writer.{
  Command, Disk, Reply, step, run_commands, apply_batch, apply_session, apply_custody, audit_of,
  finish, replies, execute, CustodyWrite,
}
use session_broker.Store.Atomic.{IsAllOrNothing, apply_batch-IsAllOrNothing}
use session_broker.Store.Reaper.{IsIntegral, reap-alive, reap-insert_session}
use session_broker.Store.Txn.{Operation}
use session_broker.Store.Integrity.{empty-IsIntegral}
use session_broker.Store.Preserved.{apply_batch-IsIntegral}
use session_broker.Store.Restart.{
  rehydrate, rehydrate_sessions, restore_all, push_rows, push_row, order_by, insert_row,
  join_sessions, join_generations,
}
use session_broker.Store.Resuming.{resolve_rows, judge, rehydrate_sessions-resolve}

program : Unit {0}
unfolding get insert remove update delete_where plus_secs classify session_expiry
    resource_valid_until find_gen resolve with_durability entry_for sid_for_hash rehydrate_session
    restored_entry sort_gens insert_gen index_gens empty insert_custody insert_session
    insert_generation update_session_progress tombstone_session update_generation_superseded
    delete_generation update_custody_success update_custody_failure insert_txn take_txn
    delete_expired_txns insert_audit prune_audit younger_audit reap is_doomed backs step execute
    run_commands apply_batch apply_session apply_custody audit_of finish replies rehydrate
    rehydrate_sessions restore_all push_rows push_row order_by insert_row join_sessions
    join_generations resolve_rows judge
program = tt

abbrev noon : Timestamp
noon = epoch + 1_700_000_000

abbrev custody_row : CustodyRow
custody_row = record {
  custody_id = 7;
  sub = 3;
  refresh_tok = 100;
  access_tok = 101;
  access_exp = noon + 3600;
  scope = none;
  status = ok;
  next_refresh = noon + 2160;
  fail_count = 0;
  updated_at = noon;
  provider_id = 0;
}

abbrev session_row : SessionRow
session_row = record {
  sid = 5;
  custody_id = 7;
  sub = 3;
  current_gen = 1;
  idle_exp = noon + 1000;
  absolute_exp = noon + 9000;
  status = alive;
  created_at = noon;
}

abbrev rotated_row : SessionRow
rotated_row = record session_row { current_gen = 2; idle_exp = noon + 1300 }

abbrev audit_row : AuditRow
audit_row = record {
  at = noon;
  action = AuditAction.other 1;
  outcome = AuditOutcome.success;
  actor_kind = ActorKind.admin;
  actor_id = none;
  subject = none;
  reason = none;
}

-- The admin's table is a number, and a write of 0 does nothing.
abbrev statement : ℕ → ℕ → Option (ℕ × Bool)
statement w x = some (w + x, not (w == 0))

abbrev unapplied_reason : ℕ → ℕ
unapplied_reason w = 9

abbrev sound : ℕ → Bool
sound n = false

abbrev login : List (Command ℕ)
login =
    Writer.Command.custody (CustodyWrite.insert custody_row) 1
    ∷ Writer.Command.session (Types.Command.insert_session session_row)
    ∷ Writer.Command.session (Types.Command.insert_generation 5 1 42 noon (noon + 600))
    ∷ Writer.Command.session (Types.Command.supersede_generation 42 (noon + 300))
    ∷ Writer.Command.session (Types.Command.insert_generation 5 2 43 (noon + 300) (noon + 900))
    ∷ Writer.Command.session (Types.Command.update_session_progress 5 2 (noon + 1300))
    ∷ Writer.Command.admin 0 (some audit_row) 2
    ∷ []

abbrev fresh_disk : Disk ℕ
fresh_disk = record { db = empty; tables = 0 }

abbrev after_login : Db
after_login = (apply_batch statement unapplied_reason sound true true fresh_disk login).disk.db

after_login-IsIntegral : IsIntegral after_login
after_login-IsIntegral =
    apply_batch-IsIntegral statement unapplied_reason sound true true fresh_disk login
      empty-IsIntegral

-- The whole batch is answered, a second one that cannot insert the session leaves no trace, and
-- when SQLite fails at the last command the caller of an earlier one hears of it.
answers :
    (replies (apply_batch statement unapplied_reason sound true true fresh_disk login)
      ≡ (1, Reply.done) ∷ (2, Reply.acted false) ∷ [])
    × ((apply_batch statement unapplied_reason sound true true
          (record { db = after_login; tables = 0 })
          (Writer.Command.admin 4 none 3
            ∷ Writer.Command.session (Types.Command.insert_session session_row)
            ∷ [])).disk.tables
        ≡ 0)
    × (replies (apply_batch statement unapplied_reason (λ n. n == 6) true true fresh_disk login)
        ≡ (1, Reply.failed) ∷ [])
unfolding program
answers = (refl, refl, refl)

apply_batch-IsAllOrNothing_example :
    IsAllOrNothing statement unapplied_reason sound true true fresh_disk login
      (apply_batch statement unapplied_reason sound true true fresh_disk login)
apply_batch-IsAllOrNothing_example =
    apply_batch-IsAllOrNothing statement unapplied_reason sound true true fresh_disk login

apply_batch-IsIntegral_example :
    IsIntegral
      (apply_batch statement unapplied_reason sound true true
        (record { db = after_login; tables = 0 })
        (Writer.Command.reap_rows noon noon ∷ [])).disk.db
apply_batch-IsIntegral_example =
    apply_batch-IsIntegral statement unapplied_reason sound true true
      (record { db = after_login; tables = 0 }) (Writer.Command.reap_rows noon noon ∷ [])
      after_login-IsIntegral

rehydrate_sessions-resolve_example :
    resolve
      (rehydrate_sessions (some (rehydrate after_login)) (with_durability default_policy)).0
      42
      (noon + 350)
    ≡ resolve_rows after_login default_policy 42 (noon + 350)
rehydrate_sessions-resolve_example =
    rehydrate_sessions-resolve after_login default_policy 42 (noon + 350) after_login-IsIntegral

resumed_in_grace :
    resolve_rows after_login default_policy 42 (noon + 350) ≡ Resolution.active 5 1 false
unfolding program
resumed_in_grace = refl

reap-alive_example :
    let db' = reap after_login (noon + 5000) noon in
    (get 5 db'.sessions
      ≡ some (record { row = rotated_row; provider_id = 0; tombstoned_at = none }))
    × (get 43 db'.generations
        ≡ some (record {
          token_hash = 43;
          sid = 5;
          gen_no = 2;
          created_at = noon + 300;
          active_until = noon + 900;
          superseded_at = none;
        }))
    × (get 7 db'.custodies ≡ some custody_row)
unfolding program
reap-alive_example =
    reap-alive after_login (noon + 5000) noon 43
      (record {
        token_hash = 43;
        sid = 5;
        gen_no = 2;
        created_at = noon + 300;
        active_until = noon + 900;
        superseded_at = none;
      })
      (record { row = rotated_row; provider_id = 0; tombstoned_at = none }) custody_row
      after_login-IsIntegral refl refl refl refl (omega arith)

-- The custody is taken, the reaper runs, and then the session comes.
abbrev grant_only : Db
grant_only =
    (apply_batch statement unapplied_reason sound true true fresh_disk
      (Writer.Command.custody (CustodyWrite.insert custody_row) 1 ∷ [])).disk.db

reap-insert_session_example : insert_session (reap grant_only noon noon) session_row ≡ none
unfolding program
reap-insert_session_example =
    reap-insert_session grant_only noon noon session_row
      (apply_batch-IsIntegral statement unapplied_reason sound true true fresh_disk
        (Writer.Command.custody (CustodyWrite.insert custody_row) 1 ∷ []) empty-IsIntegral)
      refl

abbrev txn : TxnRow
txn = record {
  txn_id = 11;
  state = 1;
  nonce = 2;
  pkce_verifier = 3;
  return_to = 4;
  created_at = noon;
}

abbrev with_txn : Db
with_txn = record empty { txns = (11, txn) ∷ [] }

abbrev earlier : List Operation
earlier = Operation.sweep noon ∷ Operation.take 12 ∷ Operation.put (record txn { txn_id = 13 }) ∷ []

abbrev later_on : List Operation
later_on = Operation.take 11 ∷ Operation.sweep (noon + 600) ∷ Operation.take 11 ∷ []
