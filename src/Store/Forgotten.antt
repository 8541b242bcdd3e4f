-- ===== src/Store/Forgotten.antt =====
-- session.rs and store/repo.rs: a rotation leaves no row of a generation that it forgot.
use session_broker.Base.{
  ◌≤◌, ◌≡◌, ◌⊎◌, refl, sym, ap, ◌∙◌, Bool, true, false, List, Option, none, some, ◌==◌,
  if◌then◌else◌, leb, inl, inr, Bool-cases, Option-cases, arith, get, insert, update, get-insert,
  get-update, some-inj, none-some, count, count-append,
}
use session_broker.Clock.{Timestamp}
use session_broker.Session.Types.{
  Sid, TokenHash, SessionToken, Generation, SessionEntry, SessionMap,
}
use session_broker.Session.Entry.{all_hashes, minted_gen, is_tombstoned}
use session_broker.Session.Reaping.{hashes, retired_hashes}
use session_broker.Session.Hashes.{claims}
use session_broker.Store.Rows.{StoredSession, GenerationRow, Db}
use session_broker.Store.Statements.{with_progress, with_superseded}
use session_broker.Store.Mirror.{Mirrors}
use session_broker.Store.Mirrored.{IsClean}
use session_broker.Store.Effects.{get-delete_all}
use session_broker.Store.Rotated.{last_counted}
use session_broker.Store.RotatedRows.{row_of, rotated_db, le_both, moved}
use session_broker.Store.Refreshed.{IsRotation}

left_of :
    {V : Type 0} (b : Bool) (o : Option V) (v : V)
    → (if b then none else o) ≡ some v
    → (b ≡ false) × (o ≡ some v)
left_of true o v h = elim (none-some h) [ ]
left_of false o v h = (refl, h)

module _ (hash : SessionToken → TokenHash) (fresh : SessionToken) (now : Timestamp) (db : Db)
    (m m' : SessionMap) (sid : Sid) (e e' : SessionEntry) (older : List Generation)
    (newest : Generation) (purged : List TokenHash) where
  abbrev mg : Generation
  mg = minted_gen hash fresh e now m.policy

  abbrev db' : Db
  db' = rotated_db db sid mg newest.token_hash now purged e'.current_gen e'.idle_exp

  module _ (mirror : Mirrors db m)
      (r : IsRotation hash fresh now db m m' sid e e' older newest purged) where
    -- Where a generation's row comes from.
    abbrev Origin : TokenHash → GenerationRow → Type 0
    Origin h x =
        (((mg.token_hash == h) ≡ true) × (x.sid ≡ sid))
        ⊎ (((mg.token_hash == h) ≡ false)
            × (y : GenerationRow) × (get h db.generations ≡ some y)
            × (x ≡ moved (newest.token_hash == h) now y))

    moved_sid : (b : Bool) (x : GenerationRow) → (moved b now x).sid ≡ x.sid
    moved_sid true x = refl
    moved_sid false x = refl

    updated_at :
        (h : TokenHash) (x y : GenerationRow)
        → (if mg.token_hash == h then some (row_of sid mg) else get h db.generations) ≡ some y
        → get h (
            update newest.token_hash
              (with_superseded now)
              (insert mg.token_hash (row_of sid mg) db.generations))
          ≡ some x
        → x ≡ moved (newest.token_hash == h) now y
    updated_at h x y there held = some-inj x _ (
        ground (
          arith,
          get-update newest.token_hash h (with_superseded now)
              (insert mg.token_hash (row_of sid mg) db.generations),
          get-insert mg.token_hash h (row_of sid mg) db.generations,
          there,
          held,
        ))

    missing_at :
        (h : TokenHash)
        → (if mg.token_hash == h then some (row_of sid mg) else get h db.generations) ≡ none
        → get h (
            update newest.token_hash
              (with_superseded now)
              (insert mg.token_hash (row_of sid mg) db.generations))
          ≡ none
    missing_at h missing = ground (
      arith,
      get-update newest.token_hash h (with_superseded now)
          (insert mg.token_hash (row_of sid mg) db.generations),
      get-insert mg.token_hash h (row_of sid mg) db.generations,
      missing,
    )

    origin :
        (h : TokenHash) (x : GenerationRow)
        → get h (
            update newest.token_hash
              (with_superseded now)
              (insert mg.token_hash (row_of sid mg) db.generations))
          ≡ some x
        → Origin h x
    origin h x held = elim (Bool-cases (mg.token_hash == h)) [
      | inl same ↦
          let eq = updated_at h x (row_of sid mg) (rw same refl) held in
          inl (
            same,
            ap (λ (z : GenerationRow). z.sid) eq
                ∙ moved_sid (newest.token_hash == h) (row_of sid mg),
          )
      | inr apart ↦ elim (Option-cases (get h db.generations)) [
        | inl missing ↦ elim (none-some (sym (missing_at h (rw apart missing)) ∙ held)) [ ]
        | inr (y, there) ↦ inr (apart, y, there, updated_at h x y (rw apart there) held)
      ]
    ]

    left_row :
        (h : TokenHash) (x : GenerationRow)
        → get h db'.generations ≡ some x
        → (count h purged ≡ 0) × Origin h x
    left_row h x held =
        let (few, there) = left_of (leb 1 (count h purged)) _ x (
          sym (
            get-delete_all h purged (
              update newest.token_hash (with_superseded now)
                (insert mg.token_hash (row_of sid mg) db.generations)))
          ∙ held) in
        (ground (arith, few), origin h x there)

    own_row :
        (h : TokenHash) (x : GenerationRow)
        → get h db'.generations ≡ some x
        → x.sid ≡ sid
        → 1 ≤ claims e' h
    unfolding count
    own_row h x held owner =
        let (kept, from) = left_row h x held in
        elim from [
          | inl (same, mine) ↦ ground (arith, r.conserved h, kept, same)
          | inr (apart, y, there, eq) ↦
              let mine : y.sid ≡ sid =
                sym (ap (λ (z : GenerationRow). z.sid) eq ∙ moved_sid (newest.token_hash == h) y)
                ∙ owner in
              let claimed = mirror.no_more sid e h y r.before there mine in
              ground (arith, r.conserved h, kept, apart, claimed)
        ]

    last_claimed : (h : TokenHash) → (newest.token_hash == h) ≡ true → 1 ≤ claims e h
    unfolding all_hashes
    last_claimed h last = le_both (last_counted h older newest last) (
        rw (sym r.gens_eq)
          (omega (arith, count-append h (hashes e.gens) (retired_hashes e.retired_gens))))

    never_own : (j : Sid) → (sid == j) ≡ false → j ≡ sid → ⊥
    never_own j apart eq = ground arith

    other_row :
        (h : TokenHash) (x : GenerationRow)
        → get h db'.generations ≡ some x
        → (sid == x.sid) ≡ false
        → get h db.generations ≡ some x
    other_row h x held apart =
        let (kept, from) = left_row h x held in
        elim from [
          | inl (same, mine) ↦ elim (never_own x.sid apart mine) [ ]
          | inr (unminted, y, there, eq) ↦ elim (Bool-cases (newest.token_hash == h)) [
            | inr unlast ↦ there ∙ ap some (sym (eq ∙ ap (λ (b : Bool). moved b now y) unlast))
            | inl last ↦
                let (z, at, owner) =
                  mirror.covers.claimed_kept sid e h r.before (last_claimed h last) in
                let same : x.sid ≡ sid =
                  ap (λ (w : GenerationRow). w.sid) eq
                  ∙ moved_sid (newest.token_hash == h) y
                  ∙ ap (λ (w : GenerationRow). w.sid) (some-inj y z (sym there ∙ at))
                  ∙ owner in
                elim (never_own x.sid apart same) [ ]
          ]
        ]

    pub rotation-IsClean : IsClean db db' sid e'
    rotation-IsClean = record {
      own_rows = own_row;
      other_rows = other_row;
      own_death = λ s held.
          let (s0, before, agrees) = mirror.covers.session_kept sid e r.before in
          let after : get sid db'.sessions ≡ some (with_progress e'.current_gen e'.idle_exp s0) =
            ground (
              arith,
              get-update sid sid (with_progress e'.current_gen e'.idle_exp) db.sessions,
              before,
            ) in
          ap (λ (x : StoredSession). x.tombstoned_at) (some-inj s _ (sym held ∙ after))
          ∙ mirror.death_kept sid e s0 r.before before
          ∙ sym r.same_death;
      own_unmarked = λ lives.
          r.same_death
          ∙ mirror.unmarked sid e r.before (ap is_tombstoned (sym r.same_status) ∙ lives);
    }
