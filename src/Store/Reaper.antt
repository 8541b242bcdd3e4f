-- ===== src/Store/Reaper.antt =====
-- store/repo.rs, `reap`: what it removes, and what it leaves alone.
use session_broker.Base.{
  ℕ, ◌+◌, ◌≡◌, ◌≤◌, refl, ◌∷◌, [], Bool, true, false, List, none, some, inl, inr, Option-cases,
  arith, if◌then◌else◌, get, HasUniqueKeys, delete_where, get-delete_where, get-delete_missing,
}
use session_broker.Clock.{Timestamp}
use session_broker.Session.Types.{CustodyId, TokenHash, SessionRow, alive}
use session_broker.Custody.Grant.{CustodyRow}
use session_broker.Store.Rows.{StoredSession, GenerationRow, TxnRow, StoredAuditRow, Db}
use session_broker.Store.Statements.{
  is_doomed, is_of_doomed, backs, is_orphan, delete_expired_txns, reap, insert_session, is_free,
}

-- The rows' numbers ascend, from the first number on and below the second.
abbrev pub IsNumbered : ℕ → ℕ → List StoredAuditRow → Type 0
IsNumbered least next [] = least ≤ next
IsNumbered least next (a ∷ rows) = (least ≤ a.seq) × IsNumbered (a.seq + 1) next rows

-- The keys of a table are those of its rows, and a reference leads to a row. The audit rows
-- are in the order of their keys, each below the key of the next row to come.
pub record IsIntegral (db : Db) : Type 0 where
  pub custodies_unique : HasUniqueKeys db.custodies
  pub sessions_unique : HasUniqueKeys db.sessions
  pub generations_unique : HasUniqueKeys db.generations
  pub custody_key : (c : ℕ) (row : CustodyRow) → get c db.custodies ≡ some row → row.custody_id ≡ c
  pub session_key : (k : ℕ) (s : StoredSession) → get k db.sessions ≡ some s → s.row.sid ≡ k
  pub generation_key :
      (h : ℕ) (g : GenerationRow) → get h db.generations ≡ some g → g.token_hash ≡ h
  pub session_custody :
      (k : ℕ) (s : StoredSession)
      → get k db.sessions ≡ some s
      → is_free (get s.row.custody_id db.custodies) ≡ false
  pub generation_session :
      (h : ℕ) (g : GenerationRow)
      → get h db.generations ≡ some g
      → is_free (get g.sid db.sessions) ≡ false
  pub txns_unique : HasUniqueKeys db.txns
  pub txn_key : (t : ℕ) (row : TxnRow) → get t db.txns ≡ some row → row.txn_id ≡ t
  pub audit_numbered : IsNumbered 0 db.next_seq db.audit

backs-get :
    (k : ℕ) (s : StoredSession) (ss : List (ℕ × StoredSession))
    → get k ss ≡ some s
    → backs s.row.custody_id ss ≡ true
unfolding get backs
backs-get k s [] h = cc
backs-get k s ((j, x) ∷ ss) h = ground (arith, backs-get k s ss)

module _ (db : Db) (dead_before txn_before : Timestamp) (ok : IsIntegral db) where
  abbrev reaped : Db
  reaped = reap db dead_before txn_before

  reaped_session :
      (k : ℕ) (s : StoredSession)
      → get k db.sessions ≡ some s
      → get k reaped.sessions ≡ (if is_doomed dead_before s then none else some s)
  unfolding reap delete_expired_txns
  reaped_session k s at =
      ground (arith, get-delete_where k (is_doomed dead_before) db.sessions ok.sessions_unique)

  reaped_generation :
      (h : ℕ) (g : GenerationRow)
      → get h db.generations ≡ some g
      → get h reaped.generations ≡ (if is_of_doomed db dead_before g then none else some g)
  unfolding reap delete_expired_txns
  reaped_generation h g at =
      ground (
        arith,
        get-delete_where h (is_of_doomed db dead_before) db.generations ok.generations_unique,
      )

  reaped_custody :
      (c : ℕ) (row : CustodyRow)
      → get c db.custodies ≡ some row
      → get c reaped.custodies ≡ (if is_orphan reaped.sessions row then none else some row)
  unfolding reap delete_expired_txns
  reaped_custody c row at = ground (
    arith,
    get-delete_where c (is_orphan (delete_where (is_doomed dead_before) db.sessions)) db.custodies
        ok.custodies_unique,
  )

  pub survives :
      (k : ℕ) (s : StoredSession)
      → get k db.sessions ≡ some s
      → is_doomed dead_before s ≡ false
      → get k reaped.sessions ≡ some s
  survives k s at lives = ground (arith, reaped_session k s at)

  pub custody_survives :
      (k : ℕ) (s : StoredSession) (row : CustodyRow)
      → get k db.sessions ≡ some s
      → is_doomed dead_before s ≡ false
      → get s.row.custody_id db.custodies ≡ some row
      → get s.row.custody_id reaped.custodies ≡ some row
  custody_survives k s row at lives held =
      let referenced = backs-get k s reaped.sessions (survives k s at lives) in
      ground
        (arith, reaped_custody s.row.custody_id row held, ok.custody_key s.row.custody_id row held)

-- A session that is alive and whose ceiling has not passed `dead_before` survives the reaper: its
-- row, each of its generations and the custody behind it stay as they are, whatever else goes.
-- The tables' keys and references hold.
pub reap-alive :
    (db : Db) (dead_before txn_before : Timestamp) (h : TokenHash) (g : GenerationRow)
    (s : StoredSession) (row : CustodyRow)
    → IsIntegral db
    → get h db.generations ≡ some g
    → get g.sid db.sessions ≡ some s
    → get s.row.custody_id db.custodies ≡ some row
    → s.row.status ≡ alive
    → dead_before ≤ s.row.absolute_exp
    → let db' = reap db dead_before txn_before in
      (get g.sid db'.sessions ≡ some s)
      × (get h db'.generations ≡ some g)
      × (get s.row.custody_id db'.custodies ≡ some row)
unfolding is_doomed
reap-alive db dead_before txn_before h g s row ok gen at held lives later =
    let fine : is_doomed dead_before s ≡ false = rw (lives) (ground arith) in
    (
      survives db dead_before txn_before ok g.sid s at fine,
      ground (arith, reaped_generation db dead_before txn_before ok h g gen),
      custody_survives db dead_before txn_before ok g.sid s row at fine held,
    )

backs-delete_where :
    (c : CustodyId) (p : StoredSession → Bool) (ss : List (ℕ × StoredSession))
    → backs c ss ≡ false
    → backs c (delete_where p ss) ≡ false
unfolding backs delete_where
backs-delete_where c p [] h = refl
backs-delete_where c p ((j, x) ∷ ss) h = ground (arith, backs-delete_where c p ss)

unreferenced_gone :
    (db : Db) (dead_before txn_before : Timestamp) (c : CustodyId)
    → IsIntegral db
    → backs c db.sessions ≡ false
    → get c (reap db dead_before txn_before).custodies ≡ none
unfolding reap delete_expired_txns
unreferenced_gone db dead_before txn_before c ok unreferenced =
    elim (Option-cases (get c db.custodies)) [
      | inl missing ↦ get-delete_missing c _ db.custodies missing
      | inr (row, held) ↦ ground (
        arith,
        get-delete_where c (is_orphan (delete_where (is_doomed dead_before) db.sessions))
            db.custodies ok.custodies_unique,
        ok.custody_key c row held,
        backs-delete_where c (is_doomed dead_before) db.sessions unreferenced,
      )
    ]

-- A custody that no session references yet does not survive the reaper, so that the insertion of
-- a session on it fails after a `Reap`. Both come in this order when a login takes custody of a
-- grant, the reaper runs, and the login then creates its session; the whole batch of that
-- insertion is rolled back. The tables' keys and references hold.
pub reap-insert_session :
    (db : Db) (dead_before txn_before : Timestamp) (row : SessionRow)
    → IsIntegral db
    → backs row.custody_id db.sessions ≡ false
    → insert_session (reap db dead_before txn_before) row ≡ none
unfolding insert_session
reap-insert_session db dead_before txn_before row ok unreferenced =
    let gone = unreferenced_gone db dead_before txn_before row.custody_id ok unreferenced in
    ground (arith, gone)
