-- ===== src/Store/Carried.antt =====
-- session.rs and store/repo.rs: a refresh, and the commands that it sends.
use mathlib.Core.List.{append_assoc}
use mathlib.Core.Path.{subst}
use session_broker.Base.{
  ℕ, ◌≡◌, refl, sym, ap, ◌∙◌, ◌∷◌, [], ◌++◌, true, false, List, Option, none, some, ◌==◌,
  if◌then◌else◌, inl, inr, arith, get, insert, get-insert, get-update, none-some, some-inj,
}
use session_broker.Clock.{Timestamp}
use session_broker.Session.Types
use session_broker.Session.Types.{
  Sid, TokenHash, SessionToken, SessionPolicy, Generation, SessionEntry, IndexEffects,
  IssuedCookies, SessionMap,
}
use session_broker.Session.Entry.{minted_gen, mint, slide, all_hashes, reap_generations}
use session_broker.Session.Map.{sent, persist}
use session_broker.Session.Refresh.{Rotation, rotate, coalesced, refresh, issued}
use session_broker.Session.Hashes.{claims, apply_rest}
use session_broker.Session.Minting.{mint_lem}
use session_broker.Session.Consistent.{At, IsConsistent}
use session_broker.Session.Grace.{refresh_issued}
use session_broker.Session.Refreshing.{HasRoom, refreshed, rotate_claims}
use session_broker.Store.Rows.{StoredSession, Db}
use session_broker.Store.Statements.{
  is_free, with_progress, insert_generation, update_generation_superseded, update_session_progress,
}
use session_broker.Store.Writer.{apply_session}
use session_broker.Store.Mirror.{Mirrors, apply_all}
use session_broker.Store.Mirrored.{IsChange, IsClean, changed-Mirrors, IsCarried}
use session_broker.Store.Effects.{
  added_cmds, superseded_cmds, purged_cmds, effect_cmds, apply_sent, apply_all-append,
  purged_applied,
}
use session_broker.Store.RotatedRows.{rotated_db, row_of, zero_or_more}
use session_broker.Store.Refreshed.{IsRotation, rotation-IsChange}
use session_broker.Store.Forgotten.{rotation-IsClean}

inserted_one :
    (db : Db) (sid : Sid) (g : Generation)
    → is_free (get g.token_hash db.generations) ≡ true
    → is_free (get sid db.sessions) ≡ false
    → apply_all (added_cmds sid (some g)) db
      ≡ some (record db { generations = insert g.token_hash (row_of sid g) db.generations })
unfolding apply_all apply_session insert_generation
inserted_one db sid g free held = rw (free, held, apply_all) refl

superseded_one :
    (db : Db) (h : TokenHash) (at : Timestamp)
    → apply_all (superseded_cmds (some (h, at))) db ≡ some (update_generation_superseded db h at)
unfolding apply_all apply_session
superseded_one db h at = refl

progress_one :
    (db : Db) (sid : Sid) (n : ℕ) (idle : Timestamp)
    → apply_all (Types.Command.update_session_progress sid n idle ∷ []) db
      ≡ some (update_session_progress db sid n idle)
unfolding apply_all apply_session
progress_one db sid n idle = refl

effects_applied :
    (db : Db) (sid : Sid) (g : Generation) (last : TokenHash) (now : Timestamp)
    (purged : List TokenHash) (n : ℕ) (idle : Timestamp)
    → is_free (get g.token_hash db.generations) ≡ true
    → is_free (get sid db.sessions) ≡ false
    → apply_all
        ((added_cmds sid (some g) ++ (superseded_cmds (some (last, now)) ++ purged_cmds purged))
          ++ Types.Command.update_session_progress sid n idle ∷ [])
        db
      ≡ some (rotated_db db sid g last now purged n idle)
unfolding update_generation_superseded update_session_progress
effects_applied db sid g last now purged n idle free held =
    let db1 : Db = record db { generations = insert g.token_hash (row_of sid g) db.generations } in
    let db2 = update_generation_superseded db1 last now in
    apply_all-append _ _ db _ _
      (apply_all-append (added_cmds sid (some g)) _ db db1 _ (inserted_one db sid g free held) (
        apply_all-append (superseded_cmds (some (last, now))) _ db1 db2 _
          (superseded_one db1 last now) (purged_applied purged db2)))
      (progress_one _ sid n idle)

module _ (hash : SessionToken → TokenHash) (fresh : SessionToken) (now : Timestamp) (db : Db)
    (m : SessionMap) (sid : Sid) (e : SessionEntry) (before : List Types.Command)
    (mirror : Mirrors db m) (c : IsConsistent m) (at : At m sid e)
    (queue : m.durability ≡ some before) where
  refreshed_entry :
      (r : Rotation) (k : Sid)
      → get k (refreshed m sid now r).sessions
        ≡ (if sid == k then some (slide r.entry now m.policy) else get k m.sessions)
  unfolding persist
  refreshed_entry r k =
      rw
        ((apply_rest r.effects sid
          (record m { sessions = insert sid (slide r.entry now m.policy) m.sessions })).0)
        (get-insert sid k (slide r.entry now m.policy) m.sessions)

  refreshed_sent :
      (r : Rotation)
      → (refreshed m sid now r).durability
        ≡ some (
            before
            ++ (effect_cmds sid r.effects
                ++ Types.Command.update_session_progress sid
                    (slide r.entry now m.policy).current_gen
                    (slide r.entry now m.policy).idle_exp
                  ∷ []))
  unfolding persist
  refreshed_sent r =
      let e' = slide r.entry now m.policy in
      let last = Types.Command.update_session_progress sid e'.current_gen e'.idle_exp in
      ap (sent last)
        (apply_sent r.effects sid (record m { sessions = insert sid e' m.sessions }) before queue)
      ∙ ap some (append_assoc before (effect_cmds sid r.effects) (last ∷ []))

  held_session : is_free (get sid db.sessions) ≡ false
  held_session = let (s, held, agrees) = mirror.covers.session_kept sid e at in ap is_free held

  coalesced-IsClean :
      (n : ℕ) (idle : Timestamp)
      → IsClean db (update_session_progress db sid n idle) sid (slide e now m.policy)
  unfolding slide update_session_progress all_hashes
  coalesced-IsClean n idle = record {
    own_rows = λ h row there owner. mirror.no_more sid e h row at there owner;
    other_rows = λ h row there apart. there;
    own_death = λ s there.
        let (s0, held, agrees) = mirror.covers.session_kept sid e at in
        let after : get sid (update_session_progress db sid n idle).sessions
            ≡ some (with_progress n idle s0) =
          ground (arith, get-update sid sid (with_progress n idle) db.sessions, held) in
        ap (λ (x : StoredSession). x.tombstoned_at) (some-inj s _ (sym there ∙ after))
        ∙ mirror.death_kept sid e s0 at held;
    own_unmarked = λ lives. mirror.unmarked sid e at lives;
  }

  -- The cookie is kept: only the idle expiry moves.
  coalesced-IsCarried :
      (t : SessionToken)
      → IsCarried db before (refreshed m sid now (rotate hash fresh e now m.policy (some t)))
  unfolding rotate slide update_session_progress all_hashes
  coalesced-IsCarried t =
      let r = rotate hash fresh e now m.policy (some t) in
      let e' = slide e now m.policy in
      let (s, held, agrees) = mirror.covers.session_kept sid e at in
      let db' = update_session_progress db sid e'.current_gen e'.idle_exp in
      let change : IsChange db db' m (refreshed m sid now r) sid e' = record {
        entry_at = refreshed_entry r;
        row_kept = (
          with_progress e'.current_gen e'.idle_exp s,
          ground (
            arith,
            get-update sid sid (with_progress e'.current_gen e'.idle_exp) db.sessions,
            held,
          ),
          (agrees.0, agrees.1, agrees.2, refl, refl, agrees.5, agrees.6),
        );
        other_sessions = λ k apart.
            ground (arith, get-update sid k (with_progress e'.current_gen e'.idle_exp) db.sessions);
        own_generations = λ h g found. mirror.covers.generation_kept sid e h g at found;
        own_claims = λ h claimed. mirror.covers.claimed_kept sid e h at claimed;
        other_generations = λ h row there apart. there;
      } in
      (
        Types.Command.update_session_progress sid e'.current_gen e'.idle_exp ∷ [],
        db',
        refreshed_sent r,
        progress_one db sid e'.current_gen e'.idle_exp,
        changed-Mirrors db db' m (refreshed m sid now r) sid e' mirror change
            (coalesced-IsClean (slide e now m.policy).current_gen (slide e now m.policy).idle_exp),
      )

  module _ (unused : get (hash fresh) m.index ≡ none)
      (free : is_free (get (hash fresh) db.generations) ≡ true) where
    unclaimed : claims e (hash fresh) ≡ 0
    unclaimed = elim (zero_or_more (claims e (hash fresh))) [
      | inl nothing ↦ nothing
      | inr some_claim ↦
          elim (none-some (sym unused ∙ c.owned sid e (hash fresh) at some_claim)) [ ]
    ]

    minted-IsRotation :
        let r = rotate hash fresh e now m.policy none in
        let s = c.sound sid e at in
        IsRotation hash fresh now db m
          (refreshed m sid now r)
          sid
          e
          (slide r.entry now m.policy)
          s.older
          s.newest
          r.effects.purged
    unfolding rotate slide mint reap_generations
    minted-IsRotation =
        let r = rotate hash fresh e now m.policy none in
        let s = c.sound sid e at in
        record {
          before = at;
          gens_eq = s.gens_eq;
          after = refreshed_entry r;
          gens_after =
              ap (λ (x : SessionEntry × IndexEffects). x.0.gens)
                (mint_lem hash fresh m.policy now e s.older s.newest s.gens_eq);
          conserved = λ h. rotate_claims hash fresh m now e none h;
          unused = unclaimed;
          once = λ h. c.distinct sid e h at;
          free = free;
          same_sid = refl;
          same_custody = refl;
          same_sub = refl;
          same_ceiling = refl;
          same_status = refl;
          same_death = refl;
        }

    minted-IsCarried :
        IsCarried db before (refreshed m sid now (rotate hash fresh e now m.policy none))
    unfolding rotate slide mint
    minted-IsCarried =
        let r = rotate hash fresh e now m.policy none in
        let s = c.sound sid e at in
        let e' = slide r.entry now m.policy in
        let g = minted_gen hash fresh e now m.policy in
        let db' =
          rotated_db db sid g s.newest.token_hash now r.effects.purged e'.current_gen e'.idle_exp in
        let ended : r.effects.superseded ≡ some (s.newest.token_hash, now) =
          ap (λ (x : SessionEntry × IndexEffects). x.1.superseded)
            (mint_lem hash fresh m.policy now e s.older s.newest s.gens_eq) in
        (
          effect_cmds sid r.effects
              ++ Types.Command.update_session_progress sid e'.current_gen e'.idle_exp ∷ [],
          db',
          refreshed_sent r,
          ap
                (λ (o : Option (TokenHash × Timestamp)).
                  apply_all
                    ((added_cmds sid (some g)
                        ++ (superseded_cmds o ++ purged_cmds r.effects.purged))
                      ++ Types.Command.update_session_progress sid e'.current_gen e'.idle_exp ∷ [])
                    db)
                ended
              ∙ effects_applied db sid g s.newest.token_hash now r.effects.purged e'.current_gen
                  e'.idle_exp free held_session,
          changed-Mirrors db db' m (refreshed m sid now r) sid e' mirror
              (rotation-IsChange hash fresh now db m (refreshed m sid now r) sid e e' s.older
                s.newest r.effects.purged mirror.covers minted-IsRotation)
              (rotation-IsClean hash fresh now db m (refreshed m sid now r) sid e e' s.older
                s.newest r.effects.purged mirror minted-IsRotation),
        )

    rotate-IsCarried :
        (t : Option SessionToken)
        → IsCarried db before (refreshed m sid now (rotate hash fresh e now m.policy t))
    rotate-IsCarried none = minted-IsCarried
    rotate-IsCarried (some t) = coalesced-IsCarried t

-- A refresh sends what keeps the tables a mirror of the map, whether it rotates the session or
-- hands out the current cookie again: applied in order, its commands all go through, and the rows
-- then agree with the entry, its generations and what it has retired, with no row left of a
-- generation that the session has forgotten. The map is consistent with
-- room for one more generation, and the hash of the token drawn is new to the map and the tables.
pub refresh-IsCarried :
    (hash : SessionToken → TokenHash) (fresh : SessionToken) (now : Timestamp) (db : Db)
    (m m' : SessionMap) (sid : Sid) (e : SessionEntry) (h : TokenHash) (cookies : IssuedCookies)
    (before : List Types.Command)
    → Mirrors db m
    → IsConsistent m
    → At m sid e
    → HasRoom e
    → m.durability ≡ some before
    → get (hash fresh) m.index ≡ none
    → is_free (get (hash fresh) db.generations) ≡ true
    → get h m.index ≡ some sid
    → refresh hash fresh m h now ≡ issued m' cookies
    → IsCarried db before m'
refresh-IsCarried hash fresh now db m m' sid e h cookies before mirror c at room queue unused free
      known given =
    let (same, told) = refresh_issued hash fresh m now sid e h c at room known given in
    subst (IsCarried db before) (sym same) (
      rotate-IsCarried hash fresh now db m sid e before mirror c at queue unused free
        (coalesced e (c.sound sid e at).newest now m.policy))
