-- ===== src/Store/Rows.antt =====
-- store/mod.rs and store/repo.rs: the rows of the tables, and the tables, each by its primary key.
-- Text columns are opaque numbers. The token columns are as they are before sealing.
use session_broker.Base.{ℕ, List, [], Option}
use session_broker.Clock.{Timestamp}
use session_broker.Session.Types.{Sid, TokenHash, SessionRow}
use session_broker.Custody.Grant.{CustodyRow, ProviderId}

-- The columns of `session` that `SessionRow` has not.
pub record StoredSession : Type 0 where
  pub row : SessionRow
  pub provider_id : ProviderId
  pub tombstoned_at : Option Timestamp

pub record GenerationRow : Type 0 where
  pub token_hash : TokenHash
  pub sid : Sid
  pub gen_no : ℕ
  pub created_at : Timestamp
  pub active_until : Timestamp
  pub superseded_at : Option Timestamp

pub record TxnRow : Type 0 where
  pub txn_id : ℕ
  pub state : ℕ
  pub nonce : ℕ
  pub pkce_verifier : ℕ
  pub return_to : ℕ
  pub created_at : Timestamp

-- The action of an audit row with what it says of sessions, keys and addresses: `audit.gap` with
-- the number of dropped rows in `detail`, and all other actions as one number.
pub data AuditAction : Type 0 where
  gap other : ℕ → AuditAction

pub data ActorKind : Type 0 where
  admin backend user system anonymous : ActorKind

pub data AuditOutcome : Type 0 where
  success failure : AuditOutcome

pub record AuditRow : Type 0 where
  pub at : Timestamp
  pub action : AuditAction
  pub outcome : AuditOutcome
  pub actor_kind : ActorKind
  pub actor_id : Option ℕ
  pub subject : Option ℕ
  pub reason : Option ℕ

pub record StoredAuditRow : Type 0 where
  pub seq : ℕ
  pub row : AuditRow

-- `next_seq` is SQLite's counter of an `AUTOINCREMENT` key.
pub record Db : Type 0 where
  pub custodies : List (ℕ × CustodyRow)
  pub sessions : List (ℕ × StoredSession)
  pub generations : List (ℕ × GenerationRow)
  pub txns : List (ℕ × TxnRow)
  pub audit : List StoredAuditRow
  pub next_seq : ℕ

unfoldable pub empty : Db
empty = record {
  custodies = [];
  sessions = [];
  generations = [];
  txns = [];
  audit = [];
  next_seq = 1;
}
