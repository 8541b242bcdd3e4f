-- ===== src/Store/Restored.antt =====
-- store/repo.rs, `rehydrate`: the sessions and generations that it finds.
use session_broker.Base.{
  ℕ, suc, ◌+◌, ◌≤◌, ◌≡◌, refl, ◌∷◌, [], ◌++◌, List, Option, none, some, ◌==◌, if◌then◌else◌, arith,
  get, HasUniqueKeys,
}
use session_broker.Session.Types.{TokenHash, SessionRow}
use session_broker.Store.Rows.{StoredSession, GenerationRow}
use session_broker.Session.Entry.{is_tombstoned}
use session_broker.Store.Restart.{JoinedRow, join_generations, join_sessions, insert_row, order_by}

-- The first row of a hash, and how many rows have it.
unfoldable pub find_row : TokenHash → List JoinedRow → Option JoinedRow
find_row h [] = none
find_row h (r ∷ rs) = if r.generation.token_hash == h then some r else find_row h rs

unfoldable pub count_rows : TokenHash → List JoinedRow → ℕ
count_rows h [] = 0
count_rows h (r ∷ rs) =
    if r.generation.token_hash == h then suc (count_rows h rs) else count_rows h rs

pub count_rows-append :
    (h : TokenHash) (xs ys : List JoinedRow)
    → count_rows h (xs ++ ys) ≡ count_rows h xs + count_rows h ys
unfolding count_rows
count_rows-append h [] ys = omega arith
count_rows-append h (x ∷ xs) ys = ground (arith, count_rows-append h xs ys)

or_else : Option JoinedRow → Option JoinedRow → Option JoinedRow
or_else none o = o
or_else (some r) o = some r

find_row-append :
    (h : TokenHash) (xs ys : List JoinedRow)
    → find_row h (xs ++ ys) ≡ or_else (find_row h xs) (find_row h ys)
unfolding find_row or_else
find_row-append h [] ys = refl
find_row-append h (x ∷ xs) ys = ground (arith, find_row-append h xs ys)

pub absent_row : (h : TokenHash) (rs : List JoinedRow) → count_rows h rs ≡ 0 → find_row h rs ≡ none
unfolding count_rows find_row
absent_row h [] c = refl
absent_row h (r ∷ rs) c = ground (arith, absent_row h rs)

pub uncounted_row :
    (h : TokenHash) (rs : List JoinedRow) → find_row h rs ≡ none → count_rows h rs ≡ 0
unfolding count_rows find_row
uncounted_row h [] c = refl
uncounted_row h (r ∷ rs) c = ground (arith, uncounted_row h rs)

-- The hash of one session's generation.
join_generations-find :
    (s : SessionRow) (h : TokenHash) (gs : List (ℕ × GenerationRow))
    → HasUniqueKeys gs
    → ((k : ℕ) (g : GenerationRow) → get k gs ≡ some g → g.token_hash ≡ k)
    → (find_row h (join_generations s gs) ≡ elim (get h gs) [
      | none ↦ none
      | some g ↦ (if g.sid == s.sid then some (record { session = s; generation = g }) else none)
    ])
      × (count_rows h (join_generations s gs) ≤ 1)
      × (get h gs ≡ none → count_rows h (join_generations s gs) ≡ 0)
unfolding find_row count_rows join_generations get
join_generations-find s h [] u keys = ground arith
join_generations-find s h ((k, g) ∷ gs) u keys =
    let ih = join_generations-find s h gs u.1 (λ j x at. ground (arith, keys j x, u.0)) in
    ground (arith, ih, keys k g, u.0)

-- The generation of a hash with its session, if that is alive.
abbrev pub live_row : GenerationRow → Option StoredSession → Option JoinedRow
live_row g none = none
live_row g (some s) =
    if is_tombstoned s.row.status then none else some (record { session = s.row; generation = g })

abbrev pub joined_row : List (ℕ × StoredSession) → Option GenerationRow → Option JoinedRow
joined_row ss none = none
joined_row ss (some g) = live_row g (get g.sid ss)

module _ (h : TokenHash) (gs : List (ℕ × GenerationRow)) (u : HasUniqueKeys gs)
    (keys : (k : ℕ) (g : GenerationRow) → get k gs ≡ some g → g.token_hash ≡ k) where
  pub join_sessions-find :
      (ss : List (ℕ × StoredSession))
      → HasUniqueKeys ss
      → ((k : ℕ) (s : StoredSession) → get k ss ≡ some s → s.row.sid ≡ k)
      → (find_row h (join_sessions ss gs) ≡ joined_row ss (get h gs))
        × (count_rows h (join_sessions ss gs) ≤ 1)
        × (joined_row ss (get h gs) ≡ none → count_rows h (join_sessions ss gs) ≡ 0)
  unfolding find_row count_rows join_sessions get or_else
  join_sessions-find [] us sids = ground arith
  join_sessions-find ((k, s) ∷ ss) us sids =
      let ih = join_sessions-find ss us.1 (λ j x at. ground (arith, sids j x, us.0)) in
      let here = join_generations-find s.row h gs u keys in
      ground (
        arith,
        ih,
        here,
        sids k s,
        us.0,
        uncounted_row h (join_generations s.row gs),
        find_row-append h (join_generations s.row gs) (join_sessions ss gs),
        count_rows-append h (join_generations s.row gs) (join_sessions ss gs),
      )

insert_row-find :
    (h : TokenHash) (r : JoinedRow) (rs : List JoinedRow)
    → (count_rows h (insert_row r rs) ≡ count_rows h (r ∷ rs))
      × (count_rows h (r ∷ rs) ≤ 1 → find_row h (insert_row r rs) ≡ find_row h (r ∷ rs))
unfolding count_rows find_row insert_row
insert_row-find h r [] = (refl, λ c. refl)
insert_row-find h r (x ∷ xs) = ground (arith, insert_row-find h r xs, absent_row h xs)

pub order_by-find :
    (h : TokenHash) (rs : List JoinedRow)
    → (count_rows h (order_by rs) ≡ count_rows h rs)
      × (count_rows h rs ≤ 1 → find_row h (order_by rs) ≡ find_row h rs)
unfolding count_rows find_row order_by
order_by-find h [] = (refl, λ c. refl)
order_by-find h (r ∷ rs) =
    ground (arith, order_by-find h rs, insert_row-find h r (order_by rs), absent_row h rs)
