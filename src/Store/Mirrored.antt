-- ===== src/Store/Mirrored.antt =====
-- session.rs and store/repo.rs: a change of one session, on the map and on the tables.
use session_broker.Base.{
  ℕ, ◌≤◌, ◌≡◌, refl, sym, ap, ◌∙◌, [], ◌++◌, true, false, List, none, some, ◌==◌, if◌then◌else◌,
  inl, inr, Bool-cases, arith, get, some-inj,
}
use mathlib.Core.Path.{subst}
use mathlib.Core.List.{append-nil}
use session_broker.Session.Types
use session_broker.Session.Types.{
  Sid, CustodyId, Subject, SessionToken, TokenHash, SessionRow, SessionPolicy, alive, Generation,
  SessionEntry, SessionMap, KillReason, Resolution,
}
use session_broker.Session.Entry.{find_gen, is_tombstoned}
use session_broker.Session.Consistent.{At}
use session_broker.Session.Hashes.{claims}
use session_broker.Store.Rows.{StoredSession, GenerationRow, Db}
use session_broker.Store.Statements.{is_free}
use session_broker.Store.Restart.{to_generation}
use session_broker.Store.Mirror.{Agrees, Covers, Mirrors, apply_all}

-- A change of one session: its entry, its row and its generations, and nothing of the others'.
pub record IsChange (db db' : Db) (m m' : SessionMap) (sid : Sid) (e' : SessionEntry) : Type 0 where
  pub entry_at : (k : Sid) → get k m'.sessions ≡ (if sid == k then some e' else get k m.sessions)
  pub row_kept : (s : StoredSession) × (get sid db'.sessions ≡ some s) × Agrees s e'
  pub other_sessions : (k : Sid) → (sid == k) ≡ false → get k db'.sessions ≡ get k db.sessions
  pub own_generations :
      (h : TokenHash) (g : Generation)
      → find_gen h e'.gens ≡ some g
      → (row : GenerationRow) × (get h db'.generations ≡ some row)
        × (row.sid ≡ sid)
        × (to_generation row ≡ g)
  pub own_claims :
      (h : TokenHash)
      → 1 ≤ claims e' h
      → (row : GenerationRow) × (get h db'.generations ≡ some row) × (row.sid ≡ sid)
  pub other_generations :
      (h : TokenHash) (row : GenerationRow)
      → get h db.generations ≡ some row
      → (sid == row.sid) ≡ false
      → get h db'.generations ≡ some row

-- The change leaves nothing behind: what the tables then have of the session is in its entry, and
-- what they have of others they had before.
pub record IsClean (db db' : Db) (sid : Sid) (e' : SessionEntry) : Type 0 where
  pub own_rows :
      (h : TokenHash) (row : GenerationRow)
      → get h db'.generations ≡ some row
      → row.sid ≡ sid
      → 1 ≤ claims e' h
  pub other_rows :
      (h : TokenHash) (row : GenerationRow)
      → get h db'.generations ≡ some row
      → (sid == row.sid) ≡ false
      → get h db.generations ≡ some row
  pub own_death :
      (s : StoredSession) → get sid db'.sessions ≡ some s → s.tombstoned_at ≡ e'.tombstoned_at
  pub own_unmarked : is_tombstoned e'.status ≡ false → e'.tombstoned_at ≡ none

module _ (db db' : Db) (m m' : SessionMap) (sid : Sid) (e' : SessionEntry) (mirror : Covers db m)
    (change : IsChange db db' m m' sid e') where
  own_entry : (k : Sid) (e : SessionEntry) → At m' k e → (sid == k) ≡ true → e' ≡ e
  own_entry k e at same = some-inj e' e (ground (arith, change.entry_at k, at, same))

  old_entry : (k : Sid) (e : SessionEntry) → At m' k e → (sid == k) ≡ false → At m k e
  old_entry k e at apart = ground (arith, change.entry_at k, at, apart)

  same_sid : (k : Sid) → (sid == k) ≡ true → sid ≡ k
  same_sid k same = ground arith

  other_row :
      (k : Sid) (row : GenerationRow) → row.sid ≡ k → (sid == k) ≡ false → (sid == row.sid) ≡ false
  other_row k row owner apart = rw owner apart

  pub changed-Covers : Covers db' m'
  changed-Covers = record {
    session_kept = λ k e at. elim (Bool-cases (sid == k)) [
      | inl same ↦
          let (s, held, agrees) = change.row_kept in
          (
            s,
            ap (λ (j : ℕ). get j db'.sessions) (sym (same_sid k same)) ∙ held,
            subst (Agrees s) (own_entry k e at same) agrees,
          )
      | inr apart ↦
          let (s, held, agrees) = mirror.session_kept k e (old_entry k e at apart) in
          (s, change.other_sessions k apart ∙ held, agrees)
    ];
    generation_kept = λ k e h g at found. elim (Bool-cases (sid == k)) [
      | inl same ↦
          let (row, held, owner, copy) =
            change.own_generations h g
              (ap (λ (x : SessionEntry). find_gen h x.gens) (own_entry k e at same) ∙ found) in
          (row, held, owner ∙ same_sid k same, copy)
      | inr apart ↦
          let (row, held, owner, copy) =
            mirror.generation_kept k e h g (old_entry k e at apart) found in
          (row, change.other_generations h row held (other_row k row owner apart), owner, copy)
    ];
    claimed_kept = λ k e h at claimed. elim (Bool-cases (sid == k)) [
      | inl same ↦
          let (row, held, owner) =
            change.own_claims h (
              subst (λ (x : SessionEntry). 1 ≤ claims x h) (sym (own_entry k e at same)) claimed) in
          (row, held, owner ∙ same_sid k same)
      | inr apart ↦
          let (row, held, owner) = mirror.claimed_kept k e h (old_entry k e at apart) claimed in
          (row, change.other_generations h row held (other_row k row owner apart), owner)
    ];
  }

module _ (db db' : Db) (m m' : SessionMap) (sid : Sid) (e' : SessionEntry) (mirror : Mirrors db m)
    (change : IsChange db db' m m' sid e') (clean : IsClean db db' sid e') where
  abbrev own : (k : Sid) (e : SessionEntry) → At m' k e → (sid == k) ≡ true → e' ≡ e
  own = own_entry db db' m m' sid e' mirror.covers change

  abbrev old : (k : Sid) (e : SessionEntry) → At m' k e → (sid == k) ≡ false → At m k e
  old = old_entry db db' m m' sid e' mirror.covers change

  eq_of : (k : Sid) → (sid == k) ≡ true → k ≡ sid
  eq_of k same = ground arith

  apart_from : (k j : Sid) → j ≡ k → (sid == k) ≡ false → (sid == j) ≡ false
  apart_from k j eq apart = rw eq apart

  held_row : (j : Sid) → (sid == j) ≡ true → is_free (get j db'.sessions) ≡ false
  held_row j same =
      let (s, held, agrees) = change.row_kept in
      ap (λ (k : ℕ). is_free (get k db'.sessions)) (eq_of j same) ∙ ap is_free held

  pub changed-Mirrors : Mirrors db' m'
  changed-Mirrors = record {
    covers = changed-Covers db db' m m' sid e' mirror.covers change;
    no_more = λ k e h row at held owner. elim (Bool-cases (sid == k)) [
      | inl same ↦
          subst (λ (x : SessionEntry). 1 ≤ claims x h) (own k e at same)
            (clean.own_rows h row held (owner ∙ eq_of k same))
      | inr apart ↦
          mirror.no_more k e h row (old k e at apart)
            (clean.other_rows h row held (apart_from k row.sid owner apart)) owner
    ];
    death_kept = λ k e s at held. elim (Bool-cases (sid == k)) [
      | inl same ↦
          clean.own_death s (ap (λ (j : ℕ). get j db'.sessions) (sym (eq_of k same)) ∙ held)
          ∙ ap (λ (x : SessionEntry). x.tombstoned_at) (own k e at same)
      | inr apart ↦
          mirror.death_kept k e s (old k e at apart) (sym (change.other_sessions k apart) ∙ held)
    ];
    unmarked = λ k e at lives. elim (Bool-cases (sid == k)) [
      | inl same ↦
          let eq = own k e at same in
          subst (λ (x : SessionEntry). x.tombstoned_at ≡ none) eq
            (clean.own_unmarked (ap (λ (x : SessionEntry). is_tombstoned x.status) eq ∙ lives))
      | inr apart ↦ mirror.unmarked k e (old k e at apart) lives
    ];
    owned = λ h row held. elim (Bool-cases (sid == row.sid)) [
      | inl same ↦ held_row row.sid same
      | inr apart ↦
          ap is_free (change.other_sessions row.sid apart)
          ∙ mirror.owned h row (clean.other_rows h row held apart)
    ];
  }

-- The commands that were sent since `before`, applied to the tables, give a mirror of the map.
abbrev pub IsCarried : Db → List Types.Command → SessionMap → Type 0
IsCarried db before m' =
    (cmds : List Types.Command) × (db' : Db) × (m'.durability ≡ some (before ++ cmds))
    × (apply_all cmds db ≡ some db')
    × Mirrors db' m'

pub unchanged :
    (db : Db) (before : List Types.Command) (m : SessionMap)
    → Mirrors db m
    → m.durability ≡ some before
    → IsCarried db before m
unfolding apply_all
unchanged db before m mirror queue =
    ([], db, queue ∙ ap some (sym (append-nil before)), refl, mirror)
