-- ===== src/Store/Grouped.antt =====
-- store/repo.rs, `rehydrate`: the loop that gathers the rows of one session.
use session_broker.Base.{
  ℕ, suc, ◌+◌, ◌≤◌, ◌<◌, ◌≡◌, refl, ◌∷◌, [], ◌++◌, Bool, true, false, List, Option, none, some,
  ◌==◌, if◌then◌else◌, inl, inr, Bool-cases, arith, All,
}
use session_broker.Session.Types.{Sid, TokenHash, SessionRow}
use session_broker.Store.Rows.{GenerationRow}
use session_broker.Store.Restart.{
  JoinedRow, RehydratedSession, is_before, insert_row, order_by, push_row, push_rows,
}
use session_broker.Store.Restored.{find_row, count_rows}

unfoldable pub find_generation : TokenHash → List GenerationRow → Option GenerationRow
find_generation h [] = none
find_generation h (g ∷ gs) = if g.token_hash == h then some g else find_generation h gs

unfoldable pub count_generations : TokenHash → List GenerationRow → ℕ
count_generations h [] = 0
count_generations h (g ∷ gs) =
    if g.token_hash == h then suc (count_generations h gs) else count_generations h gs

unfoldable pub count_groups : TokenHash → List RehydratedSession → ℕ
count_groups h [] = 0
count_groups h (e ∷ es) = count_generations h e.generations + count_groups h es

-- The first session that has a generation with the hash, and that generation.
abbrev pub beside :
    Sid → Option GenerationRow → Option (Sid × GenerationRow) → Option (Sid × GenerationRow)
beside k none rest = rest
beside k (some g) rest = some (k, g)

unfoldable pub find_group : TokenHash → List RehydratedSession → Option (Sid × GenerationRow)
find_group h [] = none
find_group h (e ∷ es) =
    let rest = find_group h es in beside e.session.sid (find_generation h e.generations) rest

unfoldable pub group_at : Sid → List RehydratedSession → Option RehydratedSession
group_at k [] = none
group_at k (e ∷ es) = let rest = group_at k es in if e.session.sid == k then some e else rest

abbrev pub row_beside : TokenHash → JoinedRow → Option (Sid × GenerationRow)
row_beside h r = if r.generation.token_hash == h then some (r.session.sid, r.generation) else none

abbrev pub first_of {ℓ} : {A : Type ℓ} → Option A → Option A → Option A
first_of none o = o
first_of (some a) o = some a

find_generation-append :
    (h : TokenHash) (gs : List GenerationRow) (g : GenerationRow)
    → find_generation h (gs ++ g ∷ [])
      ≡ first_of (find_generation h gs) (if g.token_hash == h then some g else none)
unfolding find_generation
find_generation-append h [] g = refl
find_generation-append h (x ∷ gs) g = ground (arith, find_generation-append h gs g)

count_generations-append :
    (h : TokenHash) (gs : List GenerationRow) (g : GenerationRow)
    → count_generations h (gs ++ g ∷ [])
      ≡ (if g.token_hash == h then suc (count_generations h gs) else count_generations h gs)
unfolding count_generations
count_generations-append h [] g = ground arith
count_generations-append h (x ∷ gs) g = ground (arith, count_generations-append h gs g)

push_row-find :
    (h : TokenHash) (out : List RehydratedSession) (r : JoinedRow)
    → find_group h (push_row out r) ≡ first_of (find_group h out) (row_beside h r)
unfolding find_group push_row find_generation
push_row-find h [] r = ground arith
push_row-find h (e ∷ []) r = ground (arith, find_generation-append h e.generations r.generation)
push_row-find h (e ∷ e' ∷ es) r = ground (arith, push_row-find h (e' ∷ es) r)

push_row-count :
    (h : TokenHash) (out : List RehydratedSession) (r : JoinedRow)
    → count_groups h (push_row out r)
      ≡ (if r.generation.token_hash == h then suc (count_groups h out) else count_groups h out)
unfolding count_groups push_row count_generations
push_row-count h [] r = ground arith
push_row-count h (e ∷ []) r = ground (arith, count_generations-append h e.generations r.generation)
push_row-count h (e ∷ e' ∷ es) r = ground (arith, push_row-count h (e' ∷ es) r)

abbrev pub row_at : Option JoinedRow → Option (Sid × GenerationRow)
row_at none = none
row_at (some r) = some (r.session.sid, r.generation)

pub push_rows-find :
    (h : TokenHash) (rs : List JoinedRow) (out : List RehydratedSession)
    → (find_group h (push_rows out rs) ≡ first_of (find_group h out) (row_at (find_row h rs)))
      × (count_groups h (push_rows out rs) ≡ count_groups h out + count_rows h rs)
unfolding push_rows find_row count_rows
push_rows-find h [] out = ground arith
push_rows-find h (r ∷ rs) out =
    ground
      (arith, push_rows-find h rs (push_row out r), push_row-find h out r, push_row-count h out r)

-- The session fields of a group are those of its first row.
session_of : Option RehydratedSession → Option SessionRow
session_of none = none
session_of (some e) = some e.session

push_row-session :
    (k : Sid) (out : List RehydratedSession) (r : JoinedRow)
    → session_of (group_at k (push_row out r))
      ≡ first_of (session_of (group_at k out)) (if r.session.sid == k then some r.session else none)
unfolding group_at push_row session_of
push_row-session k [] r = ground arith
push_row-session k (e ∷ []) r = ground arith
push_row-session k (e ∷ e' ∷ es) r = ground (arith, push_row-session k (e' ∷ es) r)

-- The sessions come in strictly ascending order.
abbrev pub Ascending : List RehydratedSession → Type 0
Ascending [] = Unit
Ascending (e ∷ []) = Unit
Ascending (e ∷ e' ∷ es) = (e.session.sid < e'.session.sid) × Ascending (e' ∷ es)

abbrev LastAtMost : ℕ → List RehydratedSession → Type 0
LastAtMost n [] = Unit
LastAtMost n (e ∷ []) = e.session.sid ≤ n
LastAtMost n (e ∷ e' ∷ es) = LastAtMost n (e' ∷ es)

-- The rows come in ascending order of their sessions.
abbrev InOrder : List JoinedRow → Type 0
InOrder [] = Unit
InOrder (r ∷ []) = Unit
InOrder (r ∷ r' ∷ rs) = (r.session.sid ≤ r'.session.sid) × InOrder (r' ∷ rs)

insert_row-InOrder : (r : JoinedRow) (rs : List JoinedRow) → InOrder rs → InOrder (insert_row r rs)
unfolding insert_row
insert_row-InOrder r [] s = tt
insert_row-InOrder r (x ∷ []) s = ground arith
insert_row-InOrder r (x ∷ y ∷ rs) s = ground (arith, insert_row-InOrder r (y ∷ rs) s.1)

order_by-InOrder : (rs : List JoinedRow) → InOrder (order_by rs)
unfolding order_by
order_by-InOrder [] = tt
order_by-InOrder (r ∷ rs) = insert_row-InOrder r (order_by rs) (order_by-InOrder rs)

push_row-Ascending :
    (out : List RehydratedSession) (r : JoinedRow)
    → Ascending out
    → LastAtMost r.session.sid out
    → Ascending (push_row out r) × LastAtMost r.session.sid (push_row out r)
unfolding push_row
push_row-Ascending [] r a l = ground arith
push_row-Ascending (e ∷ []) r a l = ground arith
push_row-Ascending (e ∷ e' ∷ []) r a l = ground (arith, push_row-Ascending (e' ∷ []) r a.1 l)
push_row-Ascending (e ∷ e' ∷ e'' ∷ es) r a l =
    ground (arith, push_row-Ascending (e' ∷ e'' ∷ es) r a.1 l)

raise_last : (m n : ℕ) (out : List RehydratedSession) → m ≤ n → LastAtMost m out → LastAtMost n out
raise_last m n [] le l = tt
raise_last m n (e ∷ []) le l = omega arith
raise_last m n (e ∷ e' ∷ es) le l = raise_last m n (e' ∷ es) le l

push_rows-Ascending :
    (rs : List JoinedRow) (out : List RehydratedSession) (r : JoinedRow)
    → InOrder (r ∷ rs)
    → Ascending out
    → LastAtMost r.session.sid out
    → Ascending (push_rows out (r ∷ rs))
unfolding push_rows
push_rows-Ascending [] out r s a l = (push_row-Ascending out r a l).0
push_rows-Ascending (x ∷ rs) out r s a l =
    let here = push_row-Ascending out r a l in
    push_rows-Ascending rs (push_row out r) x s.1 here.0
      (raise_last r.session.sid x.session.sid (push_row out r) s.0 here.1)

start-Ascending : (rs : List JoinedRow) → InOrder rs → Ascending (push_rows [] rs)
unfolding push_rows
start-Ascending [] s = tt
start-Ascending (r ∷ rs) s = push_rows-Ascending rs [] r s tt tt

pub gathered-Ascending : (rs : List JoinedRow) → Ascending (push_rows [] (order_by rs))
gathered-Ascending rs = start-Ascending (order_by rs) (order_by-InOrder rs)

-- What holds of every row's session holds of every session gathered, and each has a generation.
unfoldable pub has_generations : List GenerationRow → Bool
has_generations [] = false
has_generations (g ∷ gs) = true

module _ (P : SessionRow → Type 0) where
  abbrev pub IsGathered : RehydratedSession → Type 0
  IsGathered e = P e.session × (has_generations e.generations ≡ true)

  has_more : (gs : List GenerationRow) (g : GenerationRow) → has_generations (gs ++ g ∷ []) ≡ true
  unfolding has_generations
  has_more [] g = refl
  has_more (x ∷ gs) g = refl

  push_row-All :
      (out : List RehydratedSession) (r : JoinedRow)
      → All IsGathered out
      → P r.session
      → All IsGathered (push_row out r)
  unfolding push_row has_generations
  push_row-All [] r a p = ((p, refl), tt)
  push_row-All (e ∷ []) r a p = elim (Bool-cases (e.session.sid == r.session.sid)) [
    | inl same ↦ rw same ((a.0.0, has_more e.generations r.generation), tt)
    | inr other ↦ rw other (a.0, ((p, refl), tt))
  ]
  push_row-All (e ∷ e' ∷ es) r a p = (a.0, push_row-All (e' ∷ es) r a.1 p)

  pub push_rows-All :
      (rs : List JoinedRow) (out : List RehydratedSession)
      → All IsGathered out
      → All (λ (r : JoinedRow). P r.session) rs
      → All IsGathered (push_rows out rs)
  unfolding push_rows
  push_rows-All [] out a ps = a
  push_rows-All (r ∷ rs) out a ps =
      push_rows-All rs (push_row out r) (push_row-All out r a ps.0) ps.1

  insert_row-All :
      (r : JoinedRow) (rs : List JoinedRow)
      → P r.session
      → All (λ (x : JoinedRow). P x.session) rs
      → All (λ (x : JoinedRow). P x.session) (insert_row r rs)
  unfolding insert_row
  insert_row-All r [] p ps = (p, tt)
  insert_row-All r (x ∷ xs) p ps = elim (Bool-cases (is_before r x)) [
    | inl first ↦ rw first (p, ps)
    | inr later ↦ rw later (ps.0, insert_row-All r xs p ps.1)
  ]

  pub order_by-All :
      (rs : List JoinedRow)
      → All (λ (x : JoinedRow). P x.session) rs
      → All (λ (x : JoinedRow). P x.session) (order_by rs)
  unfolding order_by
  order_by-All [] ps = tt
  order_by-All (r ∷ rs) ps = insert_row-All r (order_by rs) ps.0 (order_by-All rs ps.1)
