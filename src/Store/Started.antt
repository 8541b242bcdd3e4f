-- ===== src/Store/Started.antt =====
-- session.rs and store/repo.rs: a new session and the rows that its commands insert.
use session_broker.Base.{
  sym, ◌⊎◌, ◌≤◌, ◌==◌, ℕ, false, inl, inr, Bool-cases, some-inj, true-false, ==_refl, count, ◌≡◌,
  refl, ap, ◌∙◌, ◌∷◌, [], ◌++◌, true, List, Option, none, some, arith, get, insert, get-insert,
}
use mathlib.Core.List.{append_assoc}
use session_broker.Clock.{Timestamp, plus_secs}
use session_broker.Session.Types
use session_broker.Session.Types.{
  Sid, CustodyId, Subject, SessionToken, TokenHash, SessionRow, SessionPolicy, alive, Generation,
  SessionEntry, SessionMap, KillReason, Resolution,
}
use session_broker.Session.Entry.{all_hashes, find_gen}
use session_broker.Session.Map.{create, new_entry, persist, sent}
use session_broker.Session.Hashes.{claims}
use session_broker.Store.Rows.{StoredSession, GenerationRow, Db}
use session_broker.Store.Statements.{is_free, insert_session, insert_generation, stored}
use session_broker.Store.Writer.{apply_session}
use session_broker.Store.Mirror.{Mirrors, apply_all}
use session_broker.Store.Mirrored.{IsChange, IsClean, changed-Mirrors, IsCarried}

abbrev pub first_row : SessionRow → TokenHash → Timestamp → Timestamp → GenerationRow
first_row row h now until = record {
  token_hash = h;
  sid = row.sid;
  gen_no = 1;
  created_at = now;
  active_until = until;
  superseded_at = none;
}

abbrev pub with_rows : Db → SessionRow → TokenHash → Timestamp → Timestamp → Db
with_rows db row h now until = record db {
  sessions = insert row.sid (stored db row) db.sessions;
  generations = insert h (first_row row h now until) db.generations;
}

-- The two insertions of a login go through.
both_inserted :
    (db : Db) (row : SessionRow) (h : TokenHash) (now until : Timestamp)
    → is_free (get row.sid db.sessions) ≡ true
    → is_free (get row.custody_id db.custodies) ≡ false
    → is_free (get h db.generations) ≡ true
    → apply_all
        (Types.Command.insert_session row
          ∷ Types.Command.insert_generation row.sid 1 h now until
          ∷ [])
        db
      ≡ some (with_rows db row h now until)
unfolding apply_all apply_session insert_session insert_generation
both_inserted db row h now until new_sid held new_hash =
    rw (new_sid, held, apply_all)
      (rw
        (
          get-insert row.sid row.sid (stored db row) db.sessions,
          ==_refl row.sid,
          new_hash,
          apply_all,
        )
        refl)

module _ (hash : SessionToken → TokenHash) (token : SessionToken) (db : Db) (m : SessionMap)
    (sid : Sid) (custody : CustodyId) (sub : Subject) (now : Timestamp) where
  abbrev pub entry : SessionEntry
  entry = new_entry hash token m.policy sid custody sub now

  abbrev pub until : Timestamp
  until = plus_secs now m.policy.gen_ttl_secs

  abbrev pub row : SessionRow
  row = record {
    sid = sid;
    custody_id = custody;
    sub = sub;
    current_gen = 1;
    idle_exp = entry.idle_exp;
    absolute_exp = entry.absolute_exp;
    status = alive;
    created_at = now;
  }

  abbrev cmds : List Types.Command
  cmds =
      Types.Command.insert_session row
      ∷ Types.Command.insert_generation sid 1 (hash token) now until
      ∷ []

  abbrev pub created : SessionMap
  created = (create hash token m sid custody sub now).0

  sent_both :
      (before : List Types.Command)
      → m.durability ≡ some before
      → created.durability ≡ some (before ++ cmds)
  unfolding create persist new_entry
  sent_both before queue =
      ap
        (λ (q : Option (List Types.Command)).
          sent (Types.Command.insert_generation sid 1 (hash token) now until)
            (sent (Types.Command.insert_session row) q))
        queue
      ∙ ap some (
          append_assoc before (Types.Command.insert_session row ∷ [])
            (Types.Command.insert_generation sid 1 (hash token) now until ∷ []))

  pub create-IsChange :
      is_free (get (hash token) db.generations) ≡ true
      → IsChange db (with_rows db row (hash token) now until) m created sid entry
  unfolding create persist new_entry all_hashes find_gen count
  create-IsChange new_hash = record {
    entry_at = λ k. get-insert sid k entry m.sessions;
    row_kept = (
      stored db row,
      ground (arith, get-insert sid sid (stored db row) db.sessions),
      (refl, refl, refl, refl, refl, refl, refl),
    );
    other_sessions = λ k apart. ground (arith, get-insert sid k (stored db row) db.sessions);
    own_generations = λ h g found. (
      first_row row (hash token) now until,
      ground (
        arith,
        get-insert (hash token) h (first_row row (hash token) now until) db.generations,
        found,
      ),
      refl,
      ground (arith, found),
    );
    own_claims = λ h claimed. (
      first_row row (hash token) now until,
      ground (
        arith,
        get-insert (hash token) h (first_row row (hash token) now until) db.generations,
        claimed,
      ),
      refl,
    );
    other_generations = λ h r held apart. ground (
      arith,
      get-insert (hash token) h (first_row row (hash token) now until) db.generations,
      held,
      new_hash,
    );
  }

  fresh_row :
      (h : TokenHash) (r : GenerationRow)
      → get h (with_rows db row (hash token) now until).generations ≡ some r
      → (((hash token == h) ≡ true) × (r.sid ≡ sid)) ⊎ (get h db.generations ≡ some r)
  fresh_row h r held = elim (Bool-cases (hash token == h)) [
    | inl same ↦ inl (
      same,
      ap (λ (x : GenerationRow). x.sid)
          (some-inj r (first_row row (hash token) now until) (
            ground (
              arith,
              get-insert (hash token) h (first_row row (hash token) now until) db.generations,
              held,
            ))),
    )
    | inr apart ↦ inr (
        ground (
          arith,
          get-insert (hash token) h (first_row row (hash token) now until) db.generations,
          held,
        ))
  ]

  never_own : (j : Sid) → (sid == j) ≡ false → j ≡ sid → ⊥
  never_own j apart eq = ground arith

  entry_claims : (h : TokenHash) → (hash token == h) ≡ true → 1 ≤ claims entry h
  unfolding new_entry all_hashes count
  entry_claims h same = ground arith

  -- No row of the new session was there.
  none_of :
      (h : TokenHash) (r : GenerationRow)
      → Mirrors db m
      → is_free (get sid db.sessions) ≡ true
      → get h db.generations ≡ some r
      → r.sid ≡ sid
      → ⊥
  none_of h r mirror new_sid held owner = true-false (
      sym new_sid ∙ ap (λ (k : ℕ). is_free (get k db.sessions)) (sym owner) ∙ mirror.owned h r held)

  pub create-IsClean :
      Mirrors db m
      → is_free (get sid db.sessions) ≡ true
      → IsClean db (with_rows db row (hash token) now until) sid entry
  unfolding new_entry
  create-IsClean mirror new_sid = record {
    own_rows = λ h r held owner. elim (fresh_row h r held) [
      | inl (same, mine) ↦ entry_claims h same
      | inr there ↦ elim (none_of h r mirror new_sid there owner) [ ]
    ];
    other_rows = λ h r held apart. elim (fresh_row h r held) [
      | inl (same, mine) ↦ elim (never_own r.sid apart mine) [ ]
      | inr there ↦ there
    ];
    own_death = λ s held.
        ap (λ (x : StoredSession). x.tombstoned_at)
          (some-inj s (stored db row)
            (sym held ∙ ground (arith, get-insert sid sid (stored db row) db.sessions)));
    own_unmarked = λ lives. refl;
  }

  -- A login sends what keeps the tables a mirror of the map: both insertions go through, where the
  -- custody is on disk and the session's identifier and its token's hash are new there.
  pub create-IsCarried :
      (before : List Types.Command)
      → Mirrors db m
      → m.durability ≡ some before
      → is_free (get sid db.sessions) ≡ true
      → is_free (get custody db.custodies) ≡ false
      → is_free (get (hash token) db.generations) ≡ true
      → IsCarried db before created
  create-IsCarried before mirror queue new_sid held new_hash = (
    cmds,
    with_rows db row (hash token) now until,
    sent_both before queue,
    both_inserted db row (hash token) now until new_sid held new_hash,
    changed-Mirrors db (with_rows db row (hash token) now until) m created sid entry mirror
        (create-IsChange new_hash) (create-IsClean mirror new_sid),
  )
