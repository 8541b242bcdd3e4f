-- ===== src/Store/Resuming.antt =====
-- store/repo.rs and main.rs: a restart, against a reading of the rows one by one.
use session_broker.Base.{
  ℕ, suc, ◌≤◌, ◌≡◌, refl, sym, ap, ◌∙◌, ◌∷◌, [], true, false, List, map, Option, none, some, ltb,
  leb, ◌==◌, if◌then◌else◌, inl, inr, Bool-cases, Option-cases, arith, All, All-append, get,
  HasUniqueKeys, none-some, some-inj,
}
use session_broker.Clock.{Timestamp}
use session_broker.Session.Types.{
  Sid, TokenHash, SessionRow, SessionPolicy, SessionEntry, SessionMap, RestoredSession, Resolution,
  ExpiredReason,
}
use session_broker.Session.Entry.{
  find_gen, classify, session_expiry, resource_valid_until, is_tombstoned,
}
use session_broker.Session.Map.{
  sort_gens, restored_entry, rehydrate_session, resolve, with_durability,
}
use session_broker.Store.Rows.{StoredSession, GenerationRow, Db}
use session_broker.Store.Reaper.{IsIntegral}
use session_broker.Store.Restart.{
  JoinedRow, RehydratedSession, join_generations, join_sessions, order_by, rehydrate, to_generation,
  to_restored, restore_all, rehydrate_sessions,
}
use session_broker.Store.Restored.{joined_row, live_row, join_sessions-find, order_by-find}
use session_broker.Store.Grouped.{
  count_groups, find_group, group_at, row_at, find_generation, count_generations, push_rows-find,
  gathered-Ascending, Ascending, IsGathered, push_rows-All, order_by-All,
}
use session_broker.Store.Resumed.{
  to_generation-find, sort_gens-find, restore_all-sessions, restore_all-index, found-group_at,
  generation_of, sid_of, entry_of,
}

-- The verdict that the rows alone give on a generation of a live session.
unfoldable pub judge : SessionPolicy → Timestamp → SessionRow → GenerationRow → Resolution
judge policy now s g =
    if leb s.absolute_exp now
    then Resolution.hard_expired s.sid ExpiredReason.absolute
    else if leb s.idle_exp now
    then Resolution.hard_expired s.sid ExpiredReason.idle
    else if ltb now (resource_valid_until (to_generation g) policy.grace_secs)
    then Resolution.active s.sid g.gen_no (g.gen_no == s.current_gen)
    else if g.gen_no == s.current_gen
    then Resolution.stale_refreshable s.sid g.gen_no
    else Resolution.retired s.sid g.gen_no

abbrev judged : SessionPolicy → Timestamp → Option JoinedRow → Resolution
judged policy now none = Resolution.unknown
judged policy now (some r) = judge policy now r.session r.generation

-- The row of the hash, and the row of its session.
unfoldable pub resolve_rows : Db → SessionPolicy → TokenHash → Timestamp → Resolution
resolve_rows db policy h now = judged policy now (joined_row db.sessions (get h db.generations))

restored_verdict :
    (policy : SessionPolicy) (now : Timestamp) (h : TokenHash) (e : RehydratedSession)
    (g : GenerationRow)
    → find_generation h e.generations ≡ some g
    → count_generations h e.generations ≤ 1
    → classify (restored_entry (to_restored e)) h now policy ≡ judge policy now e.session g
unfolding classify session_expiry restored_entry judge
restored_verdict policy now h e g found once =
    let gens = map to_generation e.generations in
    let same = to_generation-find h e.generations in
    let there : find_gen h (sort_gens gens) ≡ some (to_generation g) =
      (sort_gens-find h gens).1 (omega (arith, same.1)) ∙ same.0 ∙ ap generation_of found in
    ground (arith, there)

-- Every row of the join is of a session in the table.
abbrev Stands : List (ℕ × StoredSession) → SessionRow → Type 0
Stands ss x = (s : StoredSession) × (get x.sid ss ≡ some s) × (s.row ≡ x)

join_generations-All :
    (P : SessionRow → Type 0) (s : SessionRow) (gs : List (ℕ × GenerationRow))
    → P s
    → All (λ (r : JoinedRow). P r.session) (join_generations s gs)
unfolding join_generations
join_generations-All P s [] p = tt
join_generations-All P s ((h, g) ∷ gs) p = elim (Bool-cases (g.sid == s.sid)) [
  | inl same ↦ rw (same, join_generations) (p, join_generations-All P s gs p)
  | inr other ↦ rw (other, join_generations) (join_generations-All P s gs p)
]

join_sessions-All :
    (P : SessionRow → Type 0) (ss : List (ℕ × StoredSession)) (gs : List (ℕ × GenerationRow))
    → HasUniqueKeys ss
    → ((k : ℕ) (s : StoredSession) → get k ss ≡ some s → P s.row)
    → All (λ (r : JoinedRow). P r.session) (join_sessions ss gs)
unfolding join_sessions get
join_sessions-All P [] gs u holds = tt
join_sessions-All P ((k, s) ∷ ss) gs u holds =
    let rest = join_sessions-All P ss gs u.1 (λ j x at. holds j x (ground (arith, u.0))) in
    elim (Bool-cases (is_tombstoned s.row.status)) [
      | inl dead ↦ rw (dead, join_sessions) rest
      | inr alive ↦
          rw (alive, join_sessions)
            (All-append _ (join_generations s.row gs) (join_sessions ss gs)
              (join_generations-All P s.row gs (holds k s (ground arith))) rest)
    ]

live_dead :
    (g : GenerationRow) (s : StoredSession)
    → is_tombstoned s.row.status ≡ true
    → live_row g (some s) ≡ none
live_dead g s dead = rw dead refl

live_alive :
    (g : GenerationRow) (s : StoredSession)
    → is_tombstoned s.row.status ≡ false
    → live_row g (some s) ≡ some (record { session = s.row; generation = g })
live_alive g s alive = rw alive refl

pub resolve_at :
    (m : SessionMap) (h : TokenHash) (now : Timestamp) (k : Sid) (e : SessionEntry)
    (policy : SessionPolicy)
    → get h m.index ≡ some k
    → get k m.sessions ≡ some e
    → m.policy ≡ policy
    → resolve m h now ≡ classify e h now policy
unfolding resolve
resolve_at m h now k e policy sid entry same = ground (arith, sid, entry, same)

rehydrate_session-policy :
    (m : SessionMap) (r : RestoredSession) → (rehydrate_session m r).0.policy ≡ m.policy
unfolding rehydrate_session
rehydrate_session-policy m r = ground arith

restore_all-policy :
    (es : List RehydratedSession) (m : SessionMap) (n : ℕ)
    → (restore_all es (m, n)).0.policy ≡ m.policy
unfolding restore_all rehydrate_session
restore_all-policy [] m n = refl
restore_all-policy (e ∷ es) m n =
    let (m', restored) = rehydrate_session m (to_restored e) in
    let n' = if restored then suc n else n in
    restore_all-policy es m' n' ∙ rehydrate_session-policy m (to_restored e)

joined_cases :
    (ss : List (ℕ × StoredSession)) (o : Option GenerationRow) (r : JoinedRow)
    → joined_row ss o ≡ some r
    → (o ≡ some r.generation)
      × ((s : StoredSession) × (get r.generation.sid ss ≡ some s) × (s.row ≡ r.session))
joined_cases ss none r h = elim (none-some h) [ ]
joined_cases ss (some g) r h = elim (Option-cases (get g.sid ss)) [
  | inl missing ↦ elim (none-some (sym (ap (live_row g) missing) ∙ h)) [ ]
  | inr (s, at) ↦
      let here : live_row g (some s) ≡ some r = sym (ap (live_row g) at) ∙ h in
      elim (Bool-cases (is_tombstoned s.row.status)) [
        | inl dead ↦ elim (none-some (sym (live_dead g s dead) ∙ here)) [ ]
        | inr alive ↦
            let same = some-inj _ r (sym (live_alive g s alive) ∙ here) in
            (
              ap (λ (x : JoinedRow). some x.generation) same,
              (
                s,
                ap (λ (x : JoinedRow). get x.generation.sid ss) (sym same) ∙ at,
                ap (λ (x : JoinedRow). x.session) same,
              ),
            )
      ]
]

module _ (db : Db) (policy : SessionPolicy) (h : TokenHash) (ok : IsIntegral db) where
  abbrev joined : List JoinedRow
  joined = join_sessions db.sessions db.generations

  abbrev resumed : SessionMap
  resumed = (rehydrate_sessions (some (rehydrate db)) (with_durability policy)).0

  gathered : All (IsGathered (Stands db.sessions)) (rehydrate db)
  unfolding rehydrate
  gathered = push_rows-All (Stands db.sessions) (order_by joined) [] tt (
      order_by-All (Stands db.sessions) joined (
        join_sessions-All (Stands db.sessions) db.sessions db.generations ok.sessions_unique
          (λ k s at. (s, ap (λ (j : ℕ). get j db.sessions) (ok.session_key k s at) ∙ at, refl))))

  found :
      (find_group h (rehydrate db) ≡ row_at (joined_row db.sessions (get h db.generations)))
      × (count_groups h (rehydrate db) ≤ 1)
  unfolding rehydrate find_group count_groups
  found =
      let all = push_rows-find h (order_by joined) [] in
      let sorted = order_by-find h joined in
      let once =
        join_sessions-find h db.generations ok.generations_unique ok.generation_key db.sessions
          ok.sessions_unique ok.session_key in
      (all.0 ∙ ap row_at (sorted.1 once.1 ∙ once.0), omega (arith, all.1, sorted.0, once.1))

  ascending : Ascending (rehydrate db)
  unfolding rehydrate
  ascending = gathered-Ascending joined

  index_lem : get h resumed.index ≡ sid_of (find_group h (rehydrate db)) none
  unfolding rehydrate_sessions with_durability get
  index_lem =
      restore_all-index (Stands db.sessions) h (rehydrate db) (with_durability policy) 0 gathered
        found.1

  entry_lem : (k : Sid) → get k resumed.sessions ≡ entry_of (group_at k (rehydrate db)) none
  unfolding rehydrate_sessions with_durability get
  entry_lem k =
      restore_all-sessions (Stands db.sessions) k (rehydrate db) (with_durability policy) 0 gathered
        ascending

  policy_lem : resumed.policy ≡ policy
  unfolding rehydrate_sessions with_durability
  policy_lem = restore_all-policy (rehydrate db) (with_durability policy) 0

  unknown_lem :
      (now : Timestamp)
      → joined_row db.sessions (get h db.generations) ≡ none
      → resolve resumed h now ≡ Resolution.unknown
  unfolding resolve
  unknown_lem now missing =
      let no_sid : get h resumed.index ≡ none =
        index_lem
        ∙ ap (λ (o : Option (Sid × GenerationRow)). sid_of o none) (found.0 ∙ ap row_at missing) in
      ground (arith, no_sid)

  known_lem :
      (now : Timestamp) (r : JoinedRow)
      → joined_row db.sessions (get h db.generations) ≡ some r
      → resolve resumed h now ≡ judge policy now r.session r.generation
  unfolding resolve
  known_lem now r at =
      let group = found.0 ∙ ap row_at at in
      let (e, held, named, has, single, stands) =
        found-group_at (Stands db.sessions) h (rehydrate db) r.session.sid r.generation gathered
          ascending found.1 group in
      let (s, there, row) = stands in
      let (generation, (s', there', row')) = joined_cases db.sessions (get h db.generations) r at in
      let sid' : r.session.sid ≡ r.generation.sid =
        ap (λ (x : SessionRow). x.sid) (sym row') ∙ ok.session_key r.generation.sid s' there' in
      let same : s ≡ s' =
        some-inj s s' (sym there ∙ ap (λ (k : ℕ). get k db.sessions) (named ∙ sid') ∙ there') in
      let session : e.session ≡ r.session =
        sym row ∙ ap (λ (x : StoredSession). x.row) same ∙ row' in
      let sid : get h resumed.index ≡ some r.session.sid =
        index_lem ∙ ap (λ (o : Option (Sid × GenerationRow)). sid_of o none) group in
      let entry : get r.session.sid resumed.sessions ≡ some (restored_entry (to_restored e)) =
        entry_lem r.session.sid ∙ ap (λ (o : Option RehydratedSession). entry_of o none) held in
      resolve_at resumed h now r.session.sid (restored_entry (to_restored e)) policy sid entry
        policy_lem
      ∙ restored_verdict policy now h e r.generation has single
      ∙ ap (λ (x : SessionRow). judge policy now x r.generation) session

-- After a restart the session map answers each token as the rows on disk say: by the generation
-- with its hash and by that generation's session, if the session is alive, and as unknown if not.
-- The tables' keys and references hold.
pub rehydrate_sessions-resolve :
    (db : Db) (policy : SessionPolicy) (h : TokenHash) (now : Timestamp)
    → IsIntegral db
    → resolve (rehydrate_sessions (some (rehydrate db)) (with_durability policy)).0 h now
      ≡ resolve_rows db policy h now
unfolding resolve_rows
rehydrate_sessions-resolve db policy h now ok =
    elim (Option-cases (joined_row db.sessions (get h db.generations))) [
      | inl missing ↦ unknown_lem db policy h ok now missing ∙ ap (judged policy now) (sym missing)
      | inr (r, at) ↦ known_lem db policy h ok now r at ∙ ap (judged policy now) (sym at)
    ]
