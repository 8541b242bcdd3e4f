-- ===== src/Store/Statements.antt =====
-- store/repo.rs: the statements. `none` is an error, which a duplicate primary key or a missing
-- foreign key gives, since `foreign_keys` is on.
use session_broker.Base.{
  ℕ, ◌+◌, ◌∷◌, [], ◌++◌, Bool, true, false, not, ◌&&◌, ◌||◌, List, Option, none, some, ltb, ◌==◌,
  if◌then◌else◌, get, insert, remove, update, delete_where,
}
use session_broker.Clock.{Timestamp}
use session_broker.Session.Types.{
  Sid, CustodyId, TokenHash, SessionRow, tombstoned, CustodyStatus, ok,
}
use session_broker.Session.Entry.{is_tombstoned}
use session_broker.Custody.Grant.{CustodyRow, ProviderId, Bytes}
use session_broker.Store.Rows.{StoredSession, GenerationRow, TxnRow, AuditRow, StoredAuditRow, Db}

abbrev pub is_free {ℓ} : {A : Type ℓ} → Option A → Bool
is_free none = true
is_free (some a) = false

unfoldable pub insert_custody : Db → CustodyRow → Option Db
insert_custody db row =
    if is_free (get row.custody_id db.custodies)
    then some (record db { custodies = insert row.custody_id row db.custodies })
    else none

abbrev pub load_custody : Db → CustodyId → Option CustodyRow
load_custody db c = get c db.custodies

abbrev pub with_success :
    Bytes → Bytes → Timestamp → Timestamp → Timestamp → CustodyRow → CustodyRow
with_success refresh_tok access_tok access_exp next_refresh now row = record row {
  refresh_tok = refresh_tok;
  access_tok = access_tok;
  access_exp = access_exp;
  next_refresh = next_refresh;
  status = ok;
  fail_count = 0;
  updated_at = now;
}

unfoldable pub update_custody_success :
    Db → CustodyId → Bytes → Bytes → Timestamp → Timestamp → Timestamp → Db
update_custody_success db c refresh_tok access_tok access_exp next_refresh now = record db {
  custodies =
      update c (with_success refresh_tok access_tok access_exp next_refresh now) db.custodies;
}

abbrev pub with_failure : CustodyStatus → ℕ → Timestamp → Timestamp → CustodyRow → CustodyRow
with_failure status fail_count next_refresh now row = record row {
  status = status;
  fail_count = fail_count;
  next_refresh = next_refresh;
  updated_at = now;
}

unfoldable pub update_custody_failure :
    Db → CustodyId → CustodyStatus → ℕ → Timestamp → Timestamp → Db
update_custody_failure db c status fail_count next_refresh now = record db {
  custodies = update c (with_failure status fail_count next_refresh now) db.custodies;
}

-- The provider of the config file.
abbrev pub default_provider : ProviderId
default_provider = 0

abbrev provider_of : Option CustodyRow → ProviderId
provider_of none = default_provider
provider_of (some row) = row.provider_id

abbrev pub stored : Db → SessionRow → StoredSession
stored db row = record {
  row = row;
  provider_id = provider_of (get row.custody_id db.custodies);
  tombstoned_at = none;
}

unfoldable pub insert_session : Db → SessionRow → Option Db
insert_session db row =
    if is_free (get row.sid db.sessions) && not (is_free (get row.custody_id db.custodies))
    then some (record db { sessions = insert row.sid (stored db row) db.sessions })
    else none

abbrev pub with_progress : ℕ → Timestamp → StoredSession → StoredSession
with_progress current_gen idle_exp s = record s {
  row = record (s.row) { current_gen = current_gen; idle_exp = idle_exp };
}

unfoldable pub update_session_progress : Db → Sid → ℕ → Timestamp → Db
update_session_progress db sid current_gen idle_exp = record db {
  sessions = update sid (with_progress current_gen idle_exp) db.sessions;
}

abbrev pub first_death : Option Timestamp → Timestamp → Timestamp
first_death none now = now
first_death (some at) now = at

abbrev pub with_tombstone : Timestamp → StoredSession → StoredSession
with_tombstone now s = record s {
  row = record (s.row) { status = tombstoned };
  tombstoned_at = some (first_death s.tombstoned_at now);
}

unfoldable pub tombstone_session : Db → Sid → Timestamp → Db
tombstone_session db sid now = record db { sessions = update sid (with_tombstone now) db.sessions }

unfoldable pub insert_generation : Db → Sid → ℕ → TokenHash → Timestamp → Timestamp → Option Db
insert_generation db sid gen_no hash created_at active_until =
    if is_free (get hash db.generations) && not (is_free (get sid db.sessions))
    then some (record db {
      generations =
          insert hash
            (record {
              token_hash = hash;
              sid = sid;
              gen_no = gen_no;
              created_at = created_at;
              active_until = active_until;
              superseded_at = none;
            })
            db.generations;
    })
    else none

abbrev pub with_superseded : Timestamp → GenerationRow → GenerationRow
with_superseded at g = record g { superseded_at = some at }

unfoldable pub update_generation_superseded : Db → TokenHash → Timestamp → Db
update_generation_superseded db hash superseded_at = record db {
  generations = update hash (with_superseded superseded_at) db.generations;
}

unfoldable pub delete_generation : Db → TokenHash → Db
delete_generation db hash = record db { generations = remove hash db.generations }

unfoldable pub insert_txn : Db → TxnRow → Option Db
insert_txn db row =
    if is_free (get row.txn_id db.txns)
    then some (record db { txns = insert row.txn_id row db.txns })
    else none

-- Reads and deletes in one transaction.
unfoldable pub take_txn : Db → ℕ → Db × Option TxnRow
take_txn db txn_id = elim (get txn_id db.txns) [
  | none ↦ (db, none)
  | some row ↦ (record db { txns = remove txn_id db.txns }, some row)
]

abbrev pub is_stale : Timestamp → TxnRow → Bool
is_stale before row = ltb row.created_at before

unfoldable pub delete_expired_txns : Db → Timestamp → Db
delete_expired_txns db before = record db { txns = delete_where (is_stale before) db.txns }

unfoldable pub insert_audit : Db → AuditRow → Db
insert_audit db row = record db {
  audit = db.audit ++ record { seq = db.next_seq; row = row } ∷ [];
  next_seq = db.next_seq + 1;
}

unfoldable pub younger_audit : Timestamp → List StoredAuditRow → List StoredAuditRow
younger_audit before [] = []
younger_audit before (a ∷ as') =
    let rest = younger_audit before as' in if ltb a.row.at before then rest else a ∷ rest

unfoldable pub prune_audit : Db → Timestamp → Db
prune_audit db before = record db { audit = younger_audit before db.audit }

abbrev died_before : Timestamp → Option Timestamp → Bool
died_before before none = false
died_before before (some at) = ltb at before

-- The condition `DOOMED`.
unfoldable pub is_doomed : Timestamp → StoredSession → Bool
is_doomed dead_before s =
    is_tombstoned s.row.status && died_before dead_before s.tombstoned_at
    || ltb s.row.absolute_exp dead_before

abbrev pub doomed : Timestamp → Option StoredSession → Bool
doomed dead_before none = false
doomed dead_before (some s) = is_doomed dead_before s

-- `sid IN (DOOMED)`, for a generation.
abbrev pub is_of_doomed : Db → Timestamp → GenerationRow → Bool
is_of_doomed db dead_before g = doomed dead_before (get g.sid db.sessions)

unfoldable pub backs : CustodyId → List (ℕ × StoredSession) → Bool
backs c [] = false
backs c ((k, s) ∷ ss) = s.row.custody_id == c || backs c ss

abbrev pub is_orphan : List (ℕ × StoredSession) → CustodyRow → Bool
is_orphan sessions row = not (backs row.custody_id sessions)

unfoldable pub reap : Db → Timestamp → Timestamp → Db
unfolding delete_expired_txns
reap db dead_before txn_before =
    let sessions = delete_where (is_doomed dead_before) db.sessions in
    delete_expired_txns
      (record db {
        generations = delete_where (is_of_doomed db dead_before) db.generations;
        sessions = sessions;
        custodies = delete_where (is_orphan sessions) db.custodies;
      })
      txn_before
