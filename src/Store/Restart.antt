-- ===== src/Store/Restart.antt =====
-- store/repo.rs, `rehydrate`, and main.rs, `rehydrate_sessions`: the session map after a restart.
use session_broker.Base.{
  ℕ, suc, ◌∷◌, [], ◌++◌, Bool, ◌&&◌, ◌||◌, List, map, Option, none, some, ltb, leb, ◌==◌,
  if◌then◌else◌,
}
use session_broker.Session.Types.{SessionRow, Generation, RestoredSession, SessionMap}
use session_broker.Session.Map.{rehydrate_session}
use session_broker.Store.Rows.{StoredSession, GenerationRow, Db}
use session_broker.Session.Entry.{is_tombstoned}

-- A row of the `SELECT … JOIN`.
pub record JoinedRow : Type 0 where
  pub session : SessionRow
  pub generation : GenerationRow

pub record RehydratedSession : Type 0 where
  pub session : SessionRow
  pub generations : List GenerationRow

-- The generations of one session, each beside it.
unfoldable pub join_generations : SessionRow → List (ℕ × GenerationRow) → List JoinedRow
join_generations s [] = []
join_generations s ((h, g) ∷ gs) =
    let rest = join_generations s gs in
    if g.sid == s.sid then record { session = s; generation = g } ∷ rest else rest

unfoldable pub join_sessions : List (ℕ × StoredSession) → List (ℕ × GenerationRow) → List JoinedRow
join_sessions [] gs = []
join_sessions ((k, s) ∷ ss) gs =
    let rest = join_sessions ss gs in
    if is_tombstoned s.row.status then rest else join_generations s.row gs ++ rest

-- `ORDER BY s.sid, g.gen_no`.
abbrev pub is_before : JoinedRow → JoinedRow → Bool
is_before r r' =
    ltb r.session.sid r'.session.sid
    || r.session.sid == r'.session.sid && leb r.generation.gen_no r'.generation.gen_no

unfoldable pub insert_row : JoinedRow → List JoinedRow → List JoinedRow
insert_row r [] = r ∷ []
insert_row r (x ∷ xs) = let rest = insert_row r xs in if is_before r x then r ∷ x ∷ xs else x ∷ rest

unfoldable pub order_by : List JoinedRow → List JoinedRow
order_by [] = []
order_by (r ∷ rs) = insert_row r (order_by rs)

-- `out.last_mut()`: a row goes to the last session if it is that one's, and else starts another.
unfoldable pub push_row : List RehydratedSession → JoinedRow → List RehydratedSession
push_row [] r = record { session = r.session; generations = r.generation ∷ [] } ∷ []
push_row (e ∷ []) r =
    if e.session.sid == r.session.sid
    then record e { generations = e.generations ++ r.generation ∷ [] } ∷ []
    else e ∷ record { session = r.session; generations = r.generation ∷ [] } ∷ []
push_row (e ∷ e' ∷ es) r = e ∷ push_row (e' ∷ es) r

-- The `while`.
unfoldable pub push_rows : List RehydratedSession → List JoinedRow → List RehydratedSession
push_rows out [] = out
push_rows out (r ∷ rs) = push_rows (push_row out r) rs

unfoldable pub rehydrate : Db → List RehydratedSession
rehydrate db = push_rows [] (order_by (join_sessions db.sessions db.generations))

abbrev pub to_generation : GenerationRow → Generation
to_generation g = record {
  gen_no = g.gen_no;
  token_hash = g.token_hash;
  created_at = g.created_at;
  active_until = g.active_until;
  superseded_at = g.superseded_at;
}

abbrev pub to_restored : RehydratedSession → RestoredSession
to_restored e = record {
  sid = e.session.sid;
  custody = e.session.custody_id;
  sub = e.session.sub;
  current_gen = e.session.current_gen;
  idle_exp = e.session.idle_exp;
  absolute_exp = e.session.absolute_exp;
  gens = map to_generation e.generations;
}

abbrev counted : SessionMap × Bool → ℕ → SessionMap × ℕ
counted (m, restored) n = (m, if restored then suc n else n)

unfoldable pub restore_all : List RehydratedSession → SessionMap × ℕ → SessionMap × ℕ
restore_all [] s = s
restore_all (e ∷ es) (m, n) = restore_all es (counted (rehydrate_session m (to_restored e)) n)

-- `none` for an error of the reader: the broker starts with no session.
unfoldable pub rehydrate_sessions : Option (List RehydratedSession) → SessionMap → SessionMap × ℕ
rehydrate_sessions none m = (m, 0)
rehydrate_sessions (some loaded) m = restore_all loaded (m, 0)
