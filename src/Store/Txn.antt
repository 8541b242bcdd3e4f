-- ===== src/Store/Txn.antt =====
-- store/repo.rs, the login transactions: a transaction is taken once.
use session_broker.Clock.{Timestamp}
use session_broker.Base.{
  ℕ, ◌+◌, ◌≤◌, ◌≡◌, false, ◌∷◌, [], List, Option, HasUniqueKeys, none, some, ◌==◌, if◌then◌else◌,
  get,
}
use session_broker.Store.Rows.{TxnRow, Db}
use session_broker.Store.Statements.{insert_txn, take_txn, delete_expired_txns}

-- What the broker does with login transactions: a callback takes one, a login inserts one, and the
-- sweep and the reaper delete those that started before an instant. An insertion under an
-- identifier that is held fails and changes nothing.
pub data Operation : Type 0 where
  take : ℕ → Operation
  put : TxnRow → Operation
  sweep : Timestamp → Operation

abbrev or_stay : Db → Option Db → Db
or_stay db none = db
or_stay db (some db') = db'

abbrev pub perform : Operation → Db → Db
perform (take id) db = (take_txn db id).0
perform (put row) db = or_stay db (insert_txn db row)
perform (sweep before) db = delete_expired_txns db before

abbrev pub perform_all : List Operation → Db → Db
perform_all [] db = db
perform_all (op ∷ ops) db = perform_all ops (perform op db)

abbrev one_if_some : Option TxnRow → ℕ
one_if_some none = 0
one_if_some (some row) = 1

abbrev hands_out : ℕ → Operation → Db → ℕ
hands_out id (take j) db = if id == j then one_if_some (take_txn db j).1 else 0
hands_out id _ db = 0

-- How often the operations hand out the transaction `id`.
abbrev pub handed_out : ℕ → List Operation → Db → ℕ
handed_out id [] db = 0
handed_out id (op ∷ ops) db = hands_out id op db + handed_out id ops (perform op db)

-- The operation does not insert the identifier again.
abbrev pub IsNoReuse : ℕ → Operation → Type 0
IsNoReuse id (put row) = (row.txn_id == id) ≡ false
IsNoReuse id _ = Unit

-- Moreover it neither takes the transaction nor finds it expired.
abbrev pub IsSparing : TxnRow → Operation → Type 0
IsSparing row (take id) = (id == row.txn_id) ≡ false
IsSparing row (put other) = (other.txn_id == row.txn_id) ≡ false
IsSparing row (sweep before) = before ≤ row.created_at

-- The transaction is on disk, and no key stands twice in its table.
abbrev IsHeld : TxnRow → Db → Type 0
IsHeld row db = (get row.txn_id db.txns ≡ some row) × HasUniqueKeys db.txns
