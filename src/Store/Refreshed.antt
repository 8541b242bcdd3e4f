-- ===== src/Store/Refreshed.antt =====
-- session.rs and store/repo.rs: a rotation, on the map and on the tables.
use session_broker.Base.{
  ℕ, ◌+◌, ◌≤◌, ◌≡◌, refl, sym, ap, ◌∙◌, ◌∷◌, [], ◌++◌, Bool, true, false, List, some, ◌==◌,
  if◌then◌else◌, inl, inr, Bool-cases, arith, get, insert, update, get-insert, get-update, some-inj,
  true-false, count, count-append,
}
use session_broker.Clock.{Timestamp}
use session_broker.Session.Types.{
  Sid, TokenHash, SessionToken, Generation, SessionEntry, SessionMap,
}
use session_broker.Session.Entry.{find_gen, minted_gen, next_gen_no, all_hashes}
use session_broker.Session.Reaping.{hashes, retired_hashes}
use session_broker.Session.Hashes.{claims}
use session_broker.Session.Finding.{found-claims}
use session_broker.Session.Minting.{survivors}
use session_broker.Session.Consistent.{At}
use session_broker.Store.Rows.{GenerationRow, Db}
use session_broker.Store.Statements.{is_free, with_progress, with_superseded}
use session_broker.Store.Restart.{to_generation}
use session_broker.Store.Mirror.{Covers}
use session_broker.Store.Mirrored.{IsChange}
use session_broker.Store.Effects.{get-delete_all}
use session_broker.Store.Rotated.{survivors-find_gen, closed, closed-find_gen, last_counted}
use session_broker.Store.RotatedRows.{
  row_of, rotated_db, never_both, le_both, le_of_eq, zero_or_more, moved, found_last, hashes-closed,
}

module _ (hash : SessionToken → TokenHash) (fresh : SessionToken) (now : Timestamp) (db : Db)
    (m m' : SessionMap) (sid : Sid) (e e' : SessionEntry) (older : List Generation)
    (newest : Generation) (purged : List TokenHash) where
  abbrev mg : Generation
  mg = minted_gen hash fresh e now m.policy

  abbrev db' : Db
  db' = rotated_db db sid mg newest.token_hash now purged e'.current_gen e'.idle_exp

  -- What is known of the rotation.
  pub record IsRotation : Type 0 where
    pub before : At m sid e
    pub gens_eq : e.gens ≡ older ++ newest ∷ []
    pub after : (k : Sid) → get k m'.sessions ≡ (if sid == k then some e' else get k m.sessions)
    pub gens_after :
        e'.gens
        ≡ (survivors m.policy now
            (next_gen_no e.current_gen)
            e.retired_gens
            (older ++ closed now newest ∷ [])).0
          ++ mg ∷ []
    pub conserved :
        (h : TokenHash) → claims e' h + count h purged ≡ claims e h + count h (mg.token_hash ∷ [])
    pub unused : claims e mg.token_hash ≡ 0
    pub once : (h : TokenHash) → claims e h ≤ 1
    pub free : is_free (get mg.token_hash db.generations) ≡ true
    pub same_sid : e'.sid ≡ e.sid
    pub same_custody : e'.custody ≡ e.custody
    pub same_sub : e'.sub ≡ e.sub
    pub same_ceiling : e'.absolute_exp ≡ e.absolute_exp
    pub same_status : e'.status ≡ e.status
    pub same_death : e'.tombstoned_at ≡ e.tombstoned_at

  module _ (mirror : Covers db m) (r : IsRotation) where
    live_claims : (h : TokenHash) → count h (hashes (older ++ newest ∷ [])) ≤ claims e h
    unfolding all_hashes
    live_claims h =
        rw (sym r.gens_eq)
          (omega (arith, count-append h (hashes e.gens) (retired_hashes e.retired_gens)))

    new_apart : (h : TokenHash) → 1 ≤ claims e h → (mg.token_hash == h) ≡ false
    new_apart h claimed = elim (Bool-cases (mg.token_hash == h)) [
      | inr apart ↦ apart
      | inl same ↦
          let eq : mg.token_hash ≡ h = ground (arith, same) in
          elim (never_both h (ap (claims e) (sym eq) ∙ r.unused) claimed) [ ]
    ]

    unpurged : (h : TokenHash) → 1 ≤ claims e' h → count h purged ≡ 0
    unfolding count
    unpurged h claimed = elim (Bool-cases (mg.token_hash == h)) [
      | inl same ↦
          let eq : mg.token_hash ≡ h = ground (arith, same) in
          let none_before : claims e h ≡ 0 = ap (claims e) (sym eq) ∙ r.unused in
          ground (arith, r.conserved h, none_before)
      | inr apart ↦ ground (arith, r.conserved h, r.once h)
    ]

    row_after :
        (h : TokenHash) (x : GenerationRow)
        → count h purged ≡ 0
        → (if mg.token_hash == h then some (row_of sid mg) else get h db.generations) ≡ some x
        → get h db'.generations ≡ some (moved (newest.token_hash == h) now x)
    row_after h x gone at = ground (
      arith,
      get-delete_all h purged (
          update newest.token_hash (with_superseded now)
            (insert mg.token_hash (row_of sid mg) db.generations)),
      get-update newest.token_hash h (with_superseded now)
          (insert mg.token_hash (row_of sid mg) db.generations),
      get-insert mg.token_hash h (row_of sid mg) db.generations,
      at,
      gone,
    )

    moved_sid : (b : Bool) (x : GenerationRow) → (moved b now x).sid ≡ x.sid
    moved_sid true x = refl
    moved_sid false x = refl

    moved_generation :
        (b : Bool) (x : GenerationRow) (g0 : Generation)
        → to_generation x ≡ g0
        → to_generation (moved b now x) ≡ (if b then closed now g0 else g0)
    moved_generation true x g0 copy = ap (closed now) copy
    moved_generation false x g0 copy = copy

    abbrev Row : TokenHash → Type 0
    Row h = (x : GenerationRow) × (get h db'.generations ≡ some x) × (x.sid ≡ sid)

    minted_at :
        (h : TokenHash)
        → (mg.token_hash == h) ≡ true
        → (if mg.token_hash == h then some (row_of sid mg) else get h db.generations)
          ≡ some (row_of sid mg)
    minted_at h same = rw same refl

    kept_at :
        (h : TokenHash) (x : GenerationRow)
        → (mg.token_hash == h) ≡ false
        → get h db.generations ≡ some x
        → (if mg.token_hash == h then some (row_of sid mg) else get h db.generations) ≡ some x
    kept_at h x apart at = rw apart at

    own_claim : (h : TokenHash) → 1 ≤ claims e' h → Row h
    unfolding count
    own_claim h claimed =
        let gone = unpurged h claimed in
        elim (Bool-cases (mg.token_hash == h)) [
          | inl same ↦ (
            moved (newest.token_hash == h) now (row_of sid mg),
            row_after h (row_of sid mg) gone (minted_at h same),
            moved_sid (newest.token_hash == h) (row_of sid mg),
          )
          | inr apart ↦
              let old : 1 ≤ claims e h = ground (arith, r.conserved h, gone, apart, claimed) in
              let (x, at, owner) = mirror.claimed_kept sid e h r.before old in
              (
                moved (newest.token_hash == h) now x,
                row_after h x gone (kept_at h x apart at),
                moved_sid (newest.token_hash == h) x ∙ owner,
              )
        ]

    newest_apart : (h : TokenHash) → (mg.token_hash == h) ≡ true → (newest.token_hash == h) ≡ false
    newest_apart h same = elim (Bool-cases (newest.token_hash == h)) [
      | inr apart ↦ apart
      | inl last ↦
          let claimed : 1 ≤ claims e h =
            omega (arith, last_counted h older newest last, live_claims h) in
          elim (true-false (sym same ∙ new_apart h claimed)) [ ]
    ]

    own_generation :
        (h : TokenHash) (g : Generation)
        → find_gen h e'.gens ≡ some g
        → (x : GenerationRow) × (get h db'.generations ≡ some x)
          × (x.sid ≡ sid)
          × (to_generation x ≡ g)
    own_generation h g found =
        let gone = unpurged h (found-claims e' h g found) in
        let kept =
          (survivors m.policy now (next_gen_no e.current_gen) e.retired_gens
            (older ++ closed now newest ∷ [])).0 in
        elim (found_last h kept mg g (ap (find_gen h) (sym r.gens_after) ∙ found)) [
          | inr (same, eq) ↦
              let last = newest_apart h same in
              (
                row_of sid mg,
                row_after h (row_of sid mg) gone (minted_at h same)
                    ∙ ap (λ (b : Bool). some (moved b now (row_of sid mg))) last,
                refl,
                eq,
              )
          | inl there ↦
              let counted : count h (hashes (older ++ newest ∷ [])) ≤ 1 =
                omega (arith, live_claims h, r.once h) in
              let before_cap =
                survivors-find_gen m.policy now (next_gen_no e.current_gen) e.retired_gens
                  (older ++ closed now newest ∷ []) h g
                  (le_of_eq (ap (count h) (hashes-closed now older newest)) counted) there in
              let (g0, old, eq) = closed-find_gen now h older newest g counted before_cap in
              let old' : find_gen h e.gens ≡ some g0 = ap (find_gen h) r.gens_eq ∙ old in
              let apart = new_apart h (found-claims e h g0 old') in
              let (x, at, owner, copy) = mirror.generation_kept sid e h g0 r.before old' in
              (
                moved (newest.token_hash == h) now x,
                row_after h x gone (kept_at h x apart at),
                moved_sid (newest.token_hash == h) x ∙ owner,
                moved_generation (newest.token_hash == h) x g0 copy ∙ sym eq,
              )
        ]

    other_generation :
        (h : TokenHash) (x : GenerationRow)
        → get h db.generations ≡ some x
        → (sid == x.sid) ≡ false
        → get h db'.generations ≡ some x
    unfolding count
    other_generation h x at apart =
        let unclaimed : claims e h ≡ 0 = elim (zero_or_more (claims e h)) [
          | inl zero_claims ↦ zero_claims
          | inr more ↦
              let (y, at', owner) = mirror.claimed_kept sid e h r.before more in
              let same : y ≡ x = some-inj y x (sym at' ∙ at) in
              let mine : x.sid ≡ sid = ap (λ (z : GenerationRow). z.sid) (sym same) ∙ owner in
              elim (true-false (ground (arith, mine, apart))) [ ]
        ] in
        let unminted : (mg.token_hash == h) ≡ false = elim (Bool-cases (mg.token_hash == h)) [
          | inr other ↦ other
          | inl same ↦
              let eq : mg.token_hash ≡ h = ground (arith, same) in
              elim (true-false (
                sym r.free ∙ ap (λ (k : ℕ). is_free (get k db.generations)) eq ∙ ap is_free at)) [ ]
        ] in
        let unlast : (newest.token_hash == h) ≡ false = elim (Bool-cases (newest.token_hash == h)) [
          | inr other ↦ other
          | inl last ↦
              elim (never_both h unclaimed
                (le_both (last_counted h older newest last) (live_claims h))) [ ]
        ] in
        row_after h x (ground (arith, r.conserved h, unclaimed, unminted)) (kept_at h x unminted at)
        ∙ ap (λ (b : Bool). some (moved b now x)) unlast

    pub rotation-IsChange : IsChange db db' m m' sid e'
    rotation-IsChange =
        let (s, held, agrees) = mirror.session_kept sid e r.before in
        record {
          entry_at = r.after;
          row_kept = (
            with_progress e'.current_gen e'.idle_exp s,
            ground (
              arith,
              get-update sid sid (with_progress e'.current_gen e'.idle_exp) db.sessions,
              held,
            ),
            (
              agrees.0 ∙ sym r.same_sid,
              agrees.1 ∙ sym r.same_custody,
              agrees.2 ∙ sym r.same_sub,
              refl,
              refl,
              agrees.5 ∙ sym r.same_ceiling,
              agrees.6 ∙ sym r.same_status,
            ),
          );
          other_sessions = λ k apart.
              ground
                (arith, get-update sid k (with_progress e'.current_gen e'.idle_exp) db.sessions);
          own_generations = own_generation;
          own_claims = own_claim;
          other_generations = other_generation;
        }
