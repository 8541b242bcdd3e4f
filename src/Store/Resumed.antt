-- ===== src/Store/Resumed.antt =====
-- main.rs, `rehydrate_sessions`: what the session map answers after a restart.
use session_broker.Base.{
  ℕ, suc, ◌≤◌, ◌≡◌, refl, sym, ap, ◌∙◌, ◌∷◌, [], true, List, map, Option, none, some, leb, ◌==◌,
  if◌then◌else◌, inl, inr, Option-cases, arith, All, true-false, none-some, some-inj, get, insert,
  get-insert,
}
use session_broker.Session.Types.{Sid, TokenHash, SessionRow, Generation, SessionEntry, SessionMap}
use session_broker.Session.Entry.{find_gen}
use session_broker.Session.Map.{
  insert_gen, sort_gens, index_gens, restored_entry, rehydrate_session,
}
use session_broker.Store.Rows.{GenerationRow}
use session_broker.Store.Restart.{RehydratedSession, to_generation, to_restored, restore_all}
use session_broker.Store.Grouped.{
  find_generation, count_generations, count_groups, find_group, beside, group_at, Ascending,
  IsGathered, has_generations,
}

unfoldable pub count_gens : TokenHash → List Generation → ℕ
count_gens h [] = 0
count_gens h (g ∷ gs) = if g.token_hash == h then suc (count_gens h gs) else count_gens h gs

unfound : (h : TokenHash) (gs : List Generation) → count_gens h gs ≡ 0 → find_gen h gs ≡ none
unfolding count_gens find_gen
unfound h [] c = refl
unfound h (g ∷ gs) c = ground (arith, unfound h gs)

insert_gen-find :
    (h : TokenHash) (g : Generation) (gs : List Generation)
    → (count_gens h (insert_gen g gs) ≡ count_gens h (g ∷ gs))
      × (count_gens h (g ∷ gs) ≤ 1 → find_gen h (insert_gen g gs) ≡ find_gen h (g ∷ gs))
unfolding count_gens find_gen insert_gen
insert_gen-find h g [] = (refl, λ c. refl)
insert_gen-find h g (x ∷ gs) = ground (arith, insert_gen-find h g gs, unfound h gs)

pub sort_gens-find :
    (h : TokenHash) (gs : List Generation)
    → (count_gens h (sort_gens gs) ≡ count_gens h gs)
      × (count_gens h gs ≤ 1 → find_gen h (sort_gens gs) ≡ find_gen h gs)
unfolding count_gens find_gen sort_gens
sort_gens-find h [] = (refl, λ c. refl)
sort_gens-find h (g ∷ gs) =
    ground (arith, sort_gens-find h gs, insert_gen-find h g (sort_gens gs), unfound h gs)

abbrev pub generation_of : Option GenerationRow → Option Generation
generation_of none = none
generation_of (some g) = some (to_generation g)

pub to_generation-find :
    (h : TokenHash) (gs : List GenerationRow)
    → (find_gen h (map to_generation gs) ≡ generation_of (find_generation h gs))
      × (count_gens h (map to_generation gs) ≡ count_generations h gs)
unfolding count_gens find_gen find_generation count_generations
to_generation-find h [] = (refl, refl)
to_generation-find h (g ∷ gs) = ground (arith, to_generation-find h gs)

index_gens-get :
    (h : TokenHash) (sid : Sid) (gs : List Generation) (index : List (ℕ × Sid))
    → get h (index_gens sid gs index) ≡ (if leb 1 (count_gens h gs) then some sid else get h index)
unfolding index_gens count_gens
index_gens-get h sid [] index = refl
index_gens-get h sid (g ∷ gs) index = ground (
  arith,
  index_gens-get h sid gs (insert g.token_hash sid index),
  get-insert g.token_hash h sid index,
)

restored_one :
    (m : SessionMap) (s : SessionRow) (gs : List GenerationRow) (k : Sid) (h : TokenHash)
    → has_generations gs ≡ true
    → let r = to_restored (record { session = s; generations = gs }) in
      let m' = (rehydrate_session m r).0 in
      (get k m'.sessions ≡ (if s.sid == k then some (restored_entry r) else get k m.sessions))
      × (get h m'.index ≡ (if leb 1 (count_generations h gs) then some s.sid else get h m.index))
      × (m'.policy ≡ m.policy)
unfolding rehydrate_session has_generations
restored_one m s [] k h some_gens = elim (true-false (sym some_gens)) [ ]
restored_one m s (g ∷ gs) k h some_gens =
    let gens = map to_generation (g ∷ gs) in
    (
      get-insert s.sid k
          (restored_entry (to_restored (record { session = s; generations = g ∷ gs }))) m.sessions,
      index_gens-get h s.sid (sort_gens gens) m.index
          ∙ ap (λ (n : ℕ). if leb 1 n then some s.sid else get h m.index)
              ((sort_gens-find h gens).0 ∙ (to_generation-find h (g ∷ gs)).1),
      refl,
    )

later_absent :
    (e : RehydratedSession) (es : List RehydratedSession) (k : Sid)
    → Ascending (e ∷ es)
    → k ≤ e.session.sid
    → group_at k es ≡ none
unfolding group_at
later_absent e [] k a le = refl
later_absent e (e' ∷ es) k a le = ground (arith, later_absent e' es k a.1)

Ascending-tail :
    (e : RehydratedSession) (es : List RehydratedSession) → Ascending (e ∷ es) → Ascending es
Ascending-tail e [] a = tt
Ascending-tail e (e' ∷ es) a = a.1

-- The entry that a gathered session becomes.
abbrev pub entry_of : Option RehydratedSession → Option SessionEntry → Option SessionEntry
entry_of none old = old
entry_of (some e) old = some (restored_entry (to_restored e))

abbrev pub sid_of : Option (Sid × GenerationRow) → Option Sid → Option Sid
sid_of none old = old
sid_of (some (k, g)) old = some k

pub restore_all-sessions :
    (P : SessionRow → Type 0) (k : Sid) (es : List RehydratedSession) (m : SessionMap) (n : ℕ)
    → All (IsGathered P) es
    → Ascending es
    → get k (restore_all es (m, n)).0.sessions ≡ entry_of (group_at k es) (get k m.sessions)
unfolding restore_all group_at
restore_all-sessions P k [] m n all asc = refl
restore_all-sessions P k (e ∷ es) m n all asc =
    let (m', restored) = rehydrate_session m (to_restored e) in
    let one = restored_one m e.session e.generations k 0 all.0.1 in
    ground (
      arith,
      restore_all-sessions P k es m' (if restored then suc n else n) all.1
          (Ascending-tail e es asc),
      one,
      later_absent e es k asc,
    )

counted_generation :
    (h : TokenHash) (gs : List GenerationRow)
    → (count_generations h gs ≡ 0 → find_generation h gs ≡ none)
      × (find_generation h gs ≡ none → count_generations h gs ≡ 0)
unfolding count_generations find_generation
counted_generation h [] = (λ c. refl, λ c. refl)
counted_generation h (g ∷ gs) = ground (arith, counted_generation h gs)

uncounted_group :
    (h : TokenHash) (es : List RehydratedSession) → count_groups h es ≡ 0 → find_group h es ≡ none
unfolding count_groups find_group
uncounted_group h [] c = refl
uncounted_group h (e ∷ es) c =
    ground (arith, uncounted_group h es, counted_generation h e.generations)

pub restore_all-index :
    (P : SessionRow → Type 0) (h : TokenHash) (es : List RehydratedSession) (m : SessionMap) (n : ℕ)
    → All (IsGathered P) es
    → count_groups h es ≤ 1
    → get h (restore_all es (m, n)).0.index ≡ sid_of (find_group h es) (get h m.index)
unfolding restore_all find_group count_groups
restore_all-index P h [] m n all once = refl
restore_all-index P h (e ∷ es) m n all once =
    let (m', restored) = rehydrate_session m (to_restored e) in
    let one = restored_one m e.session e.generations 0 h all.0.1 in
    ground (
      arith,
      restore_all-index P h es m' (if restored then suc n else n) all.1,
      one,
      uncounted_group h es,
      counted_generation h e.generations,
    )

-- The session that has a generation is the first of its identifier.
pub found-group_at :
    (P : SessionRow → Type 0) (h : TokenHash) (es : List RehydratedSession) (k : Sid)
    (g : GenerationRow)
    → All (IsGathered P) es
    → Ascending es
    → count_groups h es ≤ 1
    → find_group h es ≡ some (k, g)
    → (e : RehydratedSession) × (group_at k es ≡ some e)
      × (e.session.sid ≡ k)
      × (find_generation h e.generations ≡ some g)
      × (count_generations h e.generations ≤ 1)
      × P e.session
unfolding find_group group_at count_groups
found-group_at P h [] k g all asc once found = elim (none-some found) [ ]
found-group_at P h (e ∷ es) k g all asc once found =
    elim (Option-cases (find_generation h e.generations)) [
      | inl missing ↦
          let (e', at, named, has, single, p) =
            found-group_at P h es k g all.1 (Ascending-tail e es asc) (omega arith) (
              sym (
                ap (λ (o : Option GenerationRow). beside e.session.sid o (find_group h es)) missing)
              ∙ found) in
          (e', ground (arith, later_absent e es k asc), named, has, single, p)
      | inr (g', has) ↦
          let same =
            some-inj (e.session.sid, g') (k, g)
              (sym (ap (λ (o : Option GenerationRow). beside e.session.sid o (find_group h es)) has)
                ∙ found) in
          (
            e,
            ground arith,
            ap (λ (x : Sid × GenerationRow). x.0) same,
            has ∙ ap (λ (x : Sid × GenerationRow). some x.1) same,
            omega arith,
            all.0.0,
          )
    ]
