-- ===== src/Session/Consistent.antt =====
-- session.rs, `SessionMap`: the invariant that ties the index to the sessions.
use mathlib.Core.Path.{subst}
use session_broker.Base.{
  ℕ, ◌+◌, ◌≤◌, ◌≡◌, refl, ◌∷◌, [], Option, none, some, leb, ◌==◌, arith, count, if◌then◌else◌, get,
  insert, get-insert, inl, inr, Bool-cases,
}
use session_broker.Session.Types.{
  Sid, TokenHash, Generation, SessionEntry, IndexEffects, SessionMap,
}
use session_broker.Session.Map.{apply}
use session_broker.Session.Hashes.{claims, apply_index, apply_rest, added_index}
use session_broker.Session.Sound.{IsSound}

abbrev pub At : SessionMap → Sid → SessionEntry → Type 0
At m sid e = get sid m.sessions ≡ some e

pub record IsConsistent (m : SessionMap) : Type 0 where
  -- A hash in the index belongs to a session that claims it.
  pub owner :
      (h : TokenHash) (sid : Sid)
      → get h m.index ≡ some sid
      → (e : SessionEntry) × At m sid e × (1 ≤ claims e h)
  -- A hash that a session claims leads to that session.
  pub owned :
      (sid : Sid) (e : SessionEntry) (h : TokenHash)
      → At m sid e
      → 1 ≤ claims e h
      → get h m.index ≡ some sid
  -- No session claims a hash twice.
  pub distinct : (sid : Sid) (e : SessionEntry) (h : TokenHash) → At m sid e → claims e h ≤ 1
  pub named : (sid : Sid) (e : SessionEntry) → At m sid e → e.sid ≡ sid
  pub sound : (sid : Sid) (e : SessionEntry) → At m sid e → IsSound m.policy e

abbrev pub added_count : Option Generation → TokenHash → ℕ
added_count none h = 0
added_count (some g) h = count h (g.token_hash ∷ [])

added_count-le : (added : Option Generation) (h : TokenHash) → added_count added h ≤ 1
unfolding count
added_count-le none h = omega arith
added_count-le (some g) h = ground arith

-- What a mutation of one entry has to provide.
pub record IsStep (m : SessionMap) (sid : Sid) (e e' : SessionEntry) (eff : IndexEffects)
    : Type 0 where
  pub before : At m sid e
  pub conserved :
      (h : TokenHash) → claims e' h + count h eff.purged ≡ claims e h + added_count eff.added h
  pub fresh : (h : TokenHash) → 1 ≤ added_count eff.added h → get h m.index ≡ none
  pub same_sid : e'.sid ≡ e.sid
  pub after_sound : IsSound m.policy e'

abbrev pub stepped : SessionMap → Sid → SessionEntry → IndexEffects → SessionMap
stepped m sid e' eff = apply eff sid (record m { sessions = insert sid e' m.sessions })

module _ (m : SessionMap) (sid : Sid) (e e' : SessionEntry) (eff : IndexEffects)
    (c : IsConsistent m) (s : IsStep m sid e e' eff) where
  stepped_index :
      (h : TokenHash)
      → get h (stepped m sid e' eff).index
        ≡ (if leb 1 (count h eff.purged) then none else added_index sid eff.added h (get h m.index))
  stepped_index h = apply_index eff sid (record m { sessions = insert sid e' m.sessions }) h

  pub stepped_at :
      (k : Sid)
      → get k (stepped m sid e' eff).sessions ≡ (if sid == k then some e' else get k m.sessions)
  stepped_at k =
      rw ((apply_rest eff sid (record m { sessions = insert sid e' m.sessions })).0)
        (get-insert sid k e' m.sessions)

  added_index_lem :
      (h : TokenHash)
      → added_index sid eff.added h (get h m.index)
        ≡ (if leb 1 (added_count eff.added h) then some sid else get h m.index)
  unfolding count
  added_index_lem h = ground arith

  owner_lem :
      (h : TokenHash) (k : Sid)
      → get h (stepped m sid e' eff).index ≡ some k
      → (x : SessionEntry) × At (stepped m sid e' eff) k x × (1 ≤ claims x h)
  owner_lem h k q = elim (Bool-cases (sid == k)) [
    | inl same ↦ (
      e',
      rw (stepped_at k, same) refl,
      ground (arith, stepped_index h, added_index_lem h, s.conserved h, c.owner h k, s.before),
    )
    | inr other ↦
        let old : get h m.index ≡ some k = ground (arith, stepped_index h, added_index_lem h) in
        let (x, at, claimed) = c.owner h k old in (x, rw (stepped_at k, other) at, claimed)
  ]

  owned_lem :
      (k : Sid) (x : SessionEntry) (h : TokenHash)
      → At (stepped m sid e' eff) k x
      → 1 ≤ claims x h
      → get h (stepped m sid e' eff).index ≡ some k
  owned_lem k x h at claimed =
      rw (stepped_index h, added_index_lem h)
        (ground (
          arith,
          stepped_at k,
          s.conserved h,
          s.fresh h,
          c.owned k x h,
          c.owned sid e h s.before,
          c.distinct sid e h s.before,
          s.before,
          added_count-le eff.added h,
        ))

  -- A mutation of one entry that moves its hashes as it tells the index keeps the map consistent.
  pub stepped-IsConsistent : IsConsistent (stepped m sid e' eff)
  stepped-IsConsistent = record {
    owner = owner_lem;
    owned = owned_lem;
    distinct = λ k x h at. ground (
      arith,
      stepped_at k,
      s.conserved h,
      s.fresh h,
      c.owned sid e h s.before,
      c.distinct sid e h s.before,
      c.distinct k x h,
      added_count-le eff.added h,
    );
    named = λ k x at. ground (arith, stepped_at k, s.same_sid, c.named sid e s.before, c.named k x);
    sound = λ k x at.
        rw ((apply_rest eff sid (record m { sessions = insert sid e' m.sessions })).1)
          (elim (Bool-cases (sid == k)) [
            | inl same ↦
                let eq : e' ≡ x = ground (arith, stepped_at k) in
                subst (IsSound m.policy) eq s.after_sound
            | inr other ↦ c.sound k x (ground (arith, stepped_at k))
          ]);
  }
