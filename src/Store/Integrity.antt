-- ===== src/Store/Integrity.antt =====
-- store/repo.rs: keys and references, and the changes of the tables.
use session_broker.Base.{
  true-false, none-some, some-inj, ℕ, ◌+◌, ◌≤◌, ◌∷◌, [], ◌++◌, ltb, ◌≡◌, refl, sym, ap, ◌∙◌, Bool,
  false, List, Option, none, some, inl, inr, Bool-cases, Option-cases, arith, if◌then◌else◌, get,
  insert, remove, update, get-insert, get-remove, get-update, update-origin, HasUniqueKeys,
  insert-HasUniqueKeys, update-HasUniqueKeys, remove-HasUniqueKeys, delete_where, get-delete_where,
  get-delete_missing, delete_where-HasUniqueKeys,
}
use mathlib.Core.Path.{subst}
use session_broker.Clock.{Timestamp}
use session_broker.Session.Types.{Sid, CustodyId, TokenHash}
use session_broker.Custody.Grant.{CustodyRow}
use session_broker.Store.Rows.{StoredSession, GenerationRow, AuditRow, StoredAuditRow, Db, empty}
use session_broker.Store.Statements.{
  is_free, reap, is_doomed, is_of_doomed, doomed, is_orphan, delete_expired_txns, is_stale,
  younger_audit,
}
use session_broker.Store.Reaper.{IsIntegral, IsNumbered, survives, custody_survives}

pub empty-IsIntegral : IsIntegral empty
unfolding empty get
empty-IsIntegral = record {
  custodies_unique = tt;
  sessions_unique = tt;
  generations_unique = tt;
  custody_key = λ c row h. elim (none-some h) [ ];
  session_key = λ k s h. elim (none-some h) [ ];
  generation_key = λ k g h. elim (none-some h) [ ];
  session_custody = λ k s h. elim (none-some h) [ ];
  generation_session = λ k g h. elim (none-some h) [ ];
  txns_unique = tt;
  txn_key = λ t row h. elim (none-some h) [ ];
  audit_numbered = omega arith;
}

-- A property of a row that the update keeps holds after it.
after_update {ℓ} :
    {V : Type ℓ} (k j : ℕ) (f : V → V) (m : List (ℕ × V)) (v : V) (P : V → Type 0)
    → ((u : V) → P u → P (f u))
    → ((u : V) → get j m ≡ some u → P u)
    → get j (update k f m) ≡ some v
    → P v
after_update k j f m v P keeps held h =
    let (u, at, step) = update-origin k j f m v h in
    elim step [ inl eq ↦ subst P eq (keeps u (held u at)) | inr eq ↦ subst P eq (held u at) ]

-- An update loses no row.
update-is_free {ℓ} :
    {V : Type ℓ} (k j : ℕ) (f : V → V) (m : List (ℕ × V))
    → is_free (get j m) ≡ false
    → is_free (get j (update k f m)) ≡ false
update-is_free k j f m h = ground (arith, get-update k j f m)

insert-is_free {ℓ} :
    {V : Type ℓ} (k j : ℕ) (v : V) (m : List (ℕ × V))
    → is_free (get j m) ≡ false
    → is_free (get j (insert k v m)) ≡ false
insert-is_free k j v m h = ground (arith, get-insert k j v m)

module _ (db : Db) (ok : IsIntegral db) where
  pub insert_custody-IsIntegral :
      (row : CustodyRow)
      → IsIntegral (record db { custodies = insert row.custody_id row db.custodies })
  insert_custody-IsIntegral row = record {
    custodies_unique = insert-HasUniqueKeys row.custody_id row db.custodies ok.custodies_unique;
    sessions_unique = ok.sessions_unique;
    generations_unique = ok.generations_unique;
    custody_key =
        λ c r h. ground (arith, get-insert row.custody_id c row db.custodies, ok.custody_key c r);
    session_key = ok.session_key;
    generation_key = ok.generation_key;
    session_custody = λ k s h.
        insert-is_free row.custody_id s.row.custody_id row db.custodies (ok.session_custody k s h);
    generation_session = ok.generation_session;
    txns_unique = ok.txns_unique;
    txn_key = ok.txn_key;
    audit_numbered = ok.audit_numbered;
  }

  -- An update that keeps the key.
  pub update_custodies-IsIntegral :
      (c : CustodyId) (f : CustodyRow → CustodyRow)
      → ((row : CustodyRow) → (f row).custody_id ≡ row.custody_id)
      → IsIntegral (record db { custodies = update c f db.custodies })
  update_custodies-IsIntegral c f keeps = record {
    custodies_unique = update-HasUniqueKeys c f db.custodies ok.custodies_unique;
    sessions_unique = ok.sessions_unique;
    generations_unique = ok.generations_unique;
    custody_key = λ d r h.
        after_update c d f db.custodies r (λ (x : CustodyRow). x.custody_id ≡ d)
          (λ u e. keeps u ∙ e) (ok.custody_key d) h;
    session_key = ok.session_key;
    generation_key = ok.generation_key;
    session_custody =
        λ k s h. update-is_free c s.row.custody_id f db.custodies (ok.session_custody k s h);
    generation_session = ok.generation_session;
    txns_unique = ok.txns_unique;
    txn_key = ok.txn_key;
    audit_numbered = ok.audit_numbered;
  }

  pub update_sessions-IsIntegral :
      (sid : Sid) (f : StoredSession → StoredSession)
      → ((s : StoredSession) → (f s).row.sid ≡ s.row.sid)
      → ((s : StoredSession) → (f s).row.custody_id ≡ s.row.custody_id)
      → IsIntegral (record db { sessions = update sid f db.sessions })
  update_sessions-IsIntegral sid f keeps_sid keeps_custody = record {
    custodies_unique = ok.custodies_unique;
    sessions_unique = update-HasUniqueKeys sid f db.sessions ok.sessions_unique;
    generations_unique = ok.generations_unique;
    custody_key = ok.custody_key;
    session_key = λ k s h.
        after_update sid k f db.sessions s (λ (x : StoredSession). x.row.sid ≡ k)
          (λ u e. keeps_sid u ∙ e) (ok.session_key k) h;
    generation_key = ok.generation_key;
    session_custody = λ k s h.
        after_update sid k f db.sessions s
          (λ (x : StoredSession). is_free (get x.row.custody_id db.custodies) ≡ false)
          (λ u e. ap (λ (c : CustodyId). is_free (get c db.custodies)) (keeps_custody u) ∙ e)
          (ok.session_custody k) h;
    generation_session =
        λ h g at. update-is_free sid g.sid f db.sessions (ok.generation_session h g at);
    txns_unique = ok.txns_unique;
    txn_key = ok.txn_key;
    audit_numbered = ok.audit_numbered;
  }

  pub update_generations-IsIntegral :
      (hash : TokenHash) (f : GenerationRow → GenerationRow)
      → ((g : GenerationRow) → (f g).token_hash ≡ g.token_hash)
      → ((g : GenerationRow) → (f g).sid ≡ g.sid)
      → IsIntegral (record db { generations = update hash f db.generations })
  update_generations-IsIntegral hash f keeps_hash keeps_sid = record {
    custodies_unique = ok.custodies_unique;
    sessions_unique = ok.sessions_unique;
    generations_unique = update-HasUniqueKeys hash f db.generations ok.generations_unique;
    custody_key = ok.custody_key;
    session_key = ok.session_key;
    generation_key = λ h g at.
        after_update hash h f db.generations g (λ (x : GenerationRow). x.token_hash ≡ h)
          (λ u e. keeps_hash u ∙ e) (ok.generation_key h) at;
    session_custody = ok.session_custody;
    generation_session = λ h g at.
        after_update hash h f db.generations g
          (λ (x : GenerationRow). is_free (get x.sid db.sessions) ≡ false)
          (λ u e. ap (λ (k : Sid). is_free (get k db.sessions)) (keeps_sid u) ∙ e)
          (ok.generation_session h) at;
    txns_unique = ok.txns_unique;
    txn_key = ok.txn_key;
    audit_numbered = ok.audit_numbered;
  }

  pub insert_session-IsIntegral :
      (s : StoredSession)
      → is_free (get s.row.custody_id db.custodies) ≡ false
      → IsIntegral (record db { sessions = insert s.row.sid s db.sessions })
  insert_session-IsIntegral s held = record {
    custodies_unique = ok.custodies_unique;
    sessions_unique = insert-HasUniqueKeys s.row.sid s db.sessions ok.sessions_unique;
    generations_unique = ok.generations_unique;
    custody_key = ok.custody_key;
    session_key = λ k x h. ground (arith, get-insert s.row.sid k s db.sessions, ok.session_key k x);
    generation_key = ok.generation_key;
    session_custody =
        λ k x h. ground (arith, get-insert s.row.sid k s db.sessions, ok.session_custody k x);
    generation_session =
        λ h g at. insert-is_free s.row.sid g.sid s db.sessions (ok.generation_session h g at);
    txns_unique = ok.txns_unique;
    txn_key = ok.txn_key;
    audit_numbered = ok.audit_numbered;
  }

  pub insert_generation-IsIntegral :
      (g : GenerationRow)
      → is_free (get g.sid db.sessions) ≡ false
      → IsIntegral (record db { generations = insert g.token_hash g db.generations })
  insert_generation-IsIntegral g held = record {
    custodies_unique = ok.custodies_unique;
    sessions_unique = ok.sessions_unique;
    generations_unique = insert-HasUniqueKeys g.token_hash g db.generations ok.generations_unique;
    custody_key = ok.custody_key;
    session_key = ok.session_key;
    generation_key =
        λ h x at. ground (arith, get-insert g.token_hash h g db.generations, ok.generation_key h x);
    session_custody = ok.session_custody;
    generation_session = λ h x at.
        ground (arith, get-insert g.token_hash h g db.generations, ok.generation_session h x);
    txns_unique = ok.txns_unique;
    txn_key = ok.txn_key;
    audit_numbered = ok.audit_numbered;
  }

  pub delete_generation-IsIntegral :
      (hash : TokenHash) → IsIntegral (record db { generations = remove hash db.generations })
  delete_generation-IsIntegral hash = record {
    custodies_unique = ok.custodies_unique;
    sessions_unique = ok.sessions_unique;
    generations_unique = remove-HasUniqueKeys hash db.generations ok.generations_unique;
    custody_key = ok.custody_key;
    session_key = ok.session_key;
    generation_key =
        λ h g at. ground (arith, get-remove hash h db.generations, ok.generation_key h g);
    session_custody = ok.session_custody;
    generation_session =
        λ h g at. ground (arith, get-remove hash h db.generations, ok.generation_session h g);
    txns_unique = ok.txns_unique;
    txn_key = ok.txn_key;
    audit_numbered = ok.audit_numbered;
  }

is_free_held {ℓ} : {V : Type ℓ} (o : Option V) (v : V) → o ≡ some v → is_free o ≡ false
is_free_held o v h = rw h refl

held_of {ℓ} : {V : Type ℓ} (o : Option V) → is_free o ≡ false → (v : V) × (o ≡ some v)
held_of none h = elim (true-false h) [ ]
held_of (some v) h = (v, refl)

-- A row that is left after a deletion was there before, and its condition does not hold.
pub delete_where-origin {ℓ} :
    {V : Type ℓ} (j : ℕ) (p : V → Bool) (m : List (ℕ × V)) (v : V)
    → HasUniqueKeys m
    → get j (delete_where p m) ≡ some v
    → (get j m ≡ some v) × (p v ≡ false)
delete_where-origin j p m v u h = elim (Option-cases (get j m)) [
  | inl missing ↦ elim (none-some (sym (get-delete_missing j p m missing) ∙ h)) [ ]
  | inr (w, at) ↦
      let kept : (if p w then none else some w) ≡ some v =
        ground (arith, get-delete_where j p m u) in
      elim (Bool-cases (p w)) [
        | inl gone ↦
            elim (none-some (ap (λ (b : Bool). if b then none else some w) (sym gone) ∙ kept)) [ ]
        | inr stays ↦
            let same =
              some-inj w v (ap (λ (b : Bool). if b then none else some w) (sym stays) ∙ kept) in
            (at ∙ ap some same, ap p (sym same) ∙ stays)
      ]
]

not_doomed :
    (db : Db) (dead_before : Timestamp) (g : GenerationRow) (s : StoredSession)
    → get g.sid db.sessions ≡ some s
    → is_of_doomed db dead_before g ≡ false
    → is_doomed dead_before s ≡ false
not_doomed db dead_before g s at h = ap (doomed dead_before) (sym at) ∙ h

-- The reaper keeps the tables' keys and references.
pub reap-IsIntegral :
    (db : Db) (dead_before txn_before : Timestamp)
    → IsIntegral db
    → IsIntegral (reap db dead_before txn_before)
unfolding reap delete_expired_txns
reap-IsIntegral db dead_before txn_before ok =
    let p = is_doomed dead_before in
    let q = is_of_doomed db dead_before in
    let r = is_orphan (delete_where p db.sessions) in
    record {
      custodies_unique = delete_where-HasUniqueKeys r db.custodies ok.custodies_unique;
      sessions_unique = delete_where-HasUniqueKeys p db.sessions ok.sessions_unique;
      generations_unique = delete_where-HasUniqueKeys q db.generations ok.generations_unique;
      custody_key = λ c row h.
          ok.custody_key c row (delete_where-origin c r db.custodies row ok.custodies_unique h).0;
      session_key = λ k s h.
          ok.session_key k s (delete_where-origin k p db.sessions s ok.sessions_unique h).0;
      generation_key = λ h g at.
          ok.generation_key h g
            (delete_where-origin h q db.generations g ok.generations_unique at).0;
      session_custody = λ k s h.
          let (at, lives) = delete_where-origin k p db.sessions s ok.sessions_unique h in
          let (row, held) =
            held_of (get s.row.custody_id db.custodies) (ok.session_custody k s at) in
          is_free_held _ row (custody_survives db dead_before txn_before ok k s row at lives held);
      generation_session = λ h g at.
          let (there, lives) = delete_where-origin h q db.generations g ok.generations_unique at in
          let (s, held) = held_of (get g.sid db.sessions) (ok.generation_session h g there) in
          is_free_held _ s (
            survives db dead_before txn_before ok g.sid s held
              (not_doomed db dead_before g s held lives));
      txns_unique = delete_where-HasUniqueKeys (is_stale txn_before) db.txns ok.txns_unique;
      txn_key = λ t row at.
          ok.txn_key t row
            (delete_where-origin t (is_stale txn_before) db.txns row ok.txns_unique at).0;
      audit_numbered = ok.audit_numbered;
    }

lowered-IsNumbered :
    (least later next : ℕ) (rows : List StoredAuditRow)
    → least ≤ later
    → IsNumbered later next rows
    → IsNumbered least next rows
lowered-IsNumbered least later next [] le h = omega (arith, le, h)
lowered-IsNumbered least later next (a ∷ rows) le h = (omega (arith, le, h.0), h.1)

pub append-IsNumbered :
    (least next : ℕ) (rows : List StoredAuditRow) (row : AuditRow)
    → IsNumbered least next rows
    → IsNumbered least (next + 1) (rows ++ record { seq = next; row = row } ∷ [])
append-IsNumbered least next [] row h = (h, omega arith)
append-IsNumbered least next (a ∷ rows) row h =
    (h.0, append-IsNumbered (a.seq + 1) next rows row h.1)

pub younger_audit-IsNumbered :
    (before : Timestamp) (least next : ℕ) (rows : List StoredAuditRow)
    → IsNumbered least next rows
    → IsNumbered least next (younger_audit before rows)
unfolding younger_audit
younger_audit-IsNumbered before least next [] h = h
younger_audit-IsNumbered before least next (a ∷ rows) h =
    let rest = younger_audit-IsNumbered before (a.seq + 1) next rows h.1 in
    elim (Bool-cases (ltb a.row.at before)) [
      | inl old ↦ rw old (lowered-IsNumbered least (a.seq + 1) next _ (omega (arith, h.0)) rest)
      | inr young ↦ rw young (h.0, rest)
    ]
