-- ===== src/Store/Mirror.antt =====
-- session.rs and store/repo.rs: the tables as a mirror of the session map, and a restart.
use session_broker.Base.{
  ℕ, ◌≤◌, ◌≡◌, refl, sym, ap, ◌∙◌, ◌∷◌, [], false, List, Option, none, some, inl, inr, Option-cases,
  arith, get, none-some, some-inj,
}
use mathlib.Core.Path.{subst}
use session_broker.Clock.{Timestamp}
use session_broker.Session.Types
use session_broker.Session.Types.{
  Sid, CustodyId, Subject, SessionToken, TokenHash, SessionRow, SessionPolicy, alive, Generation,
  SessionEntry, SessionMap, Resolution,
}
use session_broker.Session.Entry.{find_gen, classify, session_expiry, is_dead, is_tombstoned}
use session_broker.Session.Map.{resolve, with_durability}
use session_broker.Session.Consistent.{At, IsConsistent}
use session_broker.Session.Hashes.{claims}
use session_broker.Session.Finding.{found-claims}
use session_broker.Store.Rows.{StoredSession, GenerationRow, Db}
use session_broker.Store.Statements.{is_free}
use session_broker.Store.Writer.{apply_session}
use session_broker.Store.Reaper.{IsIntegral}
use session_broker.Store.Preserved.{apply_session-IsIntegral}
use session_broker.Store.Restart.{rehydrate, rehydrate_sessions, to_generation}
use session_broker.Store.Resuming.{judge, resolve_rows, rehydrate_sessions-resolve, resolve_at}

-- The columns of a session that a restart reads, and its entry.
abbrev pub Agrees : StoredSession → SessionEntry → Type 0
Agrees s e =
    (s.row.sid ≡ e.sid)
    × (s.row.custody_id ≡ e.custody)
    × (s.row.sub ≡ e.sub)
    × (s.row.current_gen ≡ e.current_gen)
    × (s.row.idle_exp ≡ e.idle_exp)
    × (s.row.absolute_exp ≡ e.absolute_exp)
    × (s.row.status ≡ e.status)

-- Each session of the map is in the tables, and so are its generations.
pub record Covers (db : Db) (m : SessionMap) : Type 0 where
  pub session_kept :
      (k : Sid) (e : SessionEntry)
      → At m k e
      → (s : StoredSession) × (get k db.sessions ≡ some s) × Agrees s e
  pub generation_kept :
      (k : Sid) (e : SessionEntry) (h : TokenHash) (g : Generation)
      → At m k e
      → find_gen h e.gens ≡ some g
      → (row : GenerationRow) × (get h db.generations ≡ some row)
        × (row.sid ≡ k)
        × (to_generation row ≡ g)
  -- What the session has minted and not forgotten is in the tables too.
  pub claimed_kept :
      (k : Sid) (e : SessionEntry) (h : TokenHash)
      → At m k e
      → 1 ≤ claims e h
      → (row : GenerationRow) × (get h db.generations ≡ some row) × (row.sid ≡ k)

-- The tables mirror the map: they cover it, and of the sessions in the map they hold no generation
-- that the session has forgotten, and its death as it is. Sessions that are no longer in the map
-- may still have rows, each generation with its session's.
pub record Mirrors (db : Db) (m : SessionMap) : Type 0 where
  pub covers : Covers db m
  pub no_more :
      (k : Sid) (e : SessionEntry) (h : TokenHash) (row : GenerationRow)
      → At m k e
      → get h db.generations ≡ some row
      → row.sid ≡ k
      → 1 ≤ claims e h
  pub death_kept :
      (k : Sid) (e : SessionEntry) (s : StoredSession)
      → At m k e
      → get k db.sessions ≡ some s
      → s.tombstoned_at ≡ e.tombstoned_at
  pub unmarked :
      (k : Sid) (e : SessionEntry)
      → At m k e
      → is_tombstoned e.status ≡ false
      → e.tombstoned_at ≡ none
  pub owned :
      (h : TokenHash) (row : GenerationRow)
      → get h db.generations ≡ some row
      → is_free (get row.sid db.sessions) ≡ false

-- What the writer makes of the commands of a session map, in order.
unfoldable pub apply_all : List Types.Command → Db → Option Db
apply_all [] db = some db
apply_all (c ∷ cs) db = elim (apply_session c db) [ none ↦ none | some db' ↦ apply_all cs db' ]

pub stopped :
    (c : Types.Command) (cs : List Types.Command) (db : Db)
    → apply_session c db ≡ none
    → apply_all (c ∷ cs) db ≡ none
unfolding apply_all
stopped c cs db error = rw (error, apply_all) refl

pub continued :
    (c : Types.Command) (cs : List Types.Command) (db db1 : Db)
    → apply_session c db ≡ some db1
    → apply_all (c ∷ cs) db ≡ apply_all cs db1
unfolding apply_all
continued c cs db db1 fine = rw (fine, apply_all) refl

pub apply_all-IsIntegral :
    (cmds : List Types.Command) (db db' : Db)
    → IsIntegral db
    → apply_all cmds db ≡ some db'
    → IsIntegral db'
unfolding apply_all
apply_all-IsIntegral [] db db' ok ran = subst IsIntegral (some-inj db db' ran) ok
apply_all-IsIntegral (c ∷ cs) db db' ok ran = elim (Option-cases (apply_session c db)) [
  | inl error ↦ elim (none-some (sym (stopped c cs db error) ∙ ran)) [ ]
  | inr (db1, fine) ↦
      apply_all-IsIntegral cs db1 db' (apply_session-IsIntegral c db db1 ok fine)
        (sym (continued c cs db db1 fine) ∙ ran)
]

-- The entry and the rows are judged alike.
same_verdict :
    (e : SessionEntry) (s : StoredSession) (row : GenerationRow) (h : TokenHash) (now : Timestamp)
    (policy : SessionPolicy)
    → Agrees s e
    → e.status ≡ alive
    → is_dead e.custody_status ≡ false
    → find_gen h e.gens ≡ some (to_generation row)
    → judge policy now s.row row ≡ classify e h now policy
unfolding judge classify session_expiry
same_verdict e s row h now policy same lives healthy found =
    ground (arith, same, lives, healthy, found)

rows_verdict :
    (db : Db) (policy : SessionPolicy) (h : TokenHash) (now : Timestamp) (s : StoredSession)
    (row : GenerationRow)
    → get h db.generations ≡ some row
    → get row.sid db.sessions ≡ some s
    → s.row.status ≡ alive
    → resolve_rows db policy h now ≡ judge policy now s.row row
unfolding resolve_rows
rows_verdict db policy h now s row at held lives = rw at (rw held (rw lives refl))

-- A restart keeps the verdict on every token of a live session's live generations, if the tables
-- cover the map, their keys and references hold, the map is consistent, and the session's grant
-- is not dead.
pub rehydrate_sessions-Covers :
    (db : Db) (m : SessionMap) (k : Sid) (e : SessionEntry) (h : TokenHash) (g : Generation)
    (now : Timestamp)
    → IsIntegral db
    → Covers db m
    → IsConsistent m
    → At m k e
    → e.status ≡ alive
    → is_dead e.custody_status ≡ false
    → find_gen h e.gens ≡ some g
    → resolve (rehydrate_sessions (some (rehydrate db)) (with_durability m.policy)).0 h now
      ≡ resolve m h now
rehydrate_sessions-Covers db m k e h g now ok mirror c at lives healthy found =
    let (s, held, same) = mirror.session_kept k e at in
    let (row, stored_at, owner, copy) = mirror.generation_kept k e h g at found in
    rehydrate_sessions-resolve db m.policy h now ok
    ∙ rows_verdict db m.policy h now s row stored_at
        (ap (λ (j : ℕ). get j db.sessions) owner ∙ held) (same.6 ∙ lives)
    ∙ same_verdict e s row h now m.policy same lives healthy (found ∙ ap some (sym copy))
    ∙ sym (resolve_at m h now k e m.policy (c.owned k e h at (found-claims e h g found)) at refl)
