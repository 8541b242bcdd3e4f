-- ===== src/Session/Creating.antt =====
-- session.rs, `SessionMap::new` and `create`, and the invariant of the map.
use session_broker.Base.{
  none-some, some-inj, ◌≤◌, ◌≡◌, refl, ap, sym, ◌∙◌, [], true, none, some, ◌⊎◌, ◌==◌, arith, count,
  if◌then◌else◌, get, get-insert, inl, inr, Bool-cases,
}
use session_broker.Clock.{Timestamp}
use session_broker.Session.Types.{
  Sid, CustodyId, Subject, Resolution, TokenHash, SessionToken, SessionPolicy, SessionEntry,
  SessionMap,
}
use session_broker.Session.Entry.{
  all_hashes, classify, session_expiry, resource_valid_until, find_gen,
}
use session_broker.Session.Map.{
  new, new_entry, create, persist, first_gen, resolve, entry_for, sid_for_hash,
}
use session_broker.Session.Issued.{lt-plus_secs, IsInstant, IsLifetime}
use session_broker.Session.Hashes.{claims}
use session_broker.Session.Sound.{IsSound}
use session_broker.Session.Consistent.{At, IsConsistent}

pub new-IsConsistent : (p : SessionPolicy) → IsConsistent (new p)
unfolding new get
new-IsConsistent p = record {
  owner = λ h sid q. elim (none-some q) [ ];
  owned = λ sid e h at some_claim. elim (none-some at) [ ];
  distinct = λ sid e h at. elim (none-some at) [ ];
  named = λ sid e at. elim (none-some at) [ ];
  sound = λ sid e at. elim (none-some at) [ ];
}

module _ (hash : SessionToken → TokenHash) (token : SessionToken) (m : SessionMap) (sid : Sid)
    (custody : CustodyId) (sub : Subject) (now : Timestamp) where
  abbrev entry : SessionEntry
  entry = new_entry hash token m.policy sid custody sub now

  entry_claims : (h : TokenHash) → claims entry h ≡ (if hash token == h then 1 else 0)
  unfolding new_entry all_hashes count
  entry_claims h = ground arith

  entry-IsSound : IsSound m.policy entry
  unfolding new_entry
  entry-IsSound = record {
    older = [];
    newest = first_gen hash token m.policy now;
    gens_eq = refl;
    newest_no = refl;
    newest_open = refl;
    older_closed = tt;
    live_bound = omega arith;
    retired_bound = omega arith;
    idle_bound = omega arith;
  }

  entry-classify :
      IsInstant now
      → IsLifetime m.policy.gen_ttl_secs
      → IsLifetime m.policy.idle_ttl_secs
      → IsLifetime m.policy.absolute_ttl_secs
      → classify entry (hash token) now m.policy ≡ Resolution.active sid 1 true
  unfolding new_entry classify session_expiry resource_valid_until find_gen
  entry-classify sane ttl idle absolute = ground (
    arith,
    lt-plus_secs now m.policy.gen_ttl_secs sane.1 ttl,
    lt-plus_secs now m.policy.idle_ttl_secs sane.1 idle,
    lt-plus_secs now m.policy.absolute_ttl_secs sane.1 absolute,
  )

  abbrev created : SessionMap
  created = (create hash token m sid custody sub now).0

  created_sessions :
      (k : Sid) → get k created.sessions ≡ (if sid == k then some entry else get k m.sessions)
  unfolding create persist
  created_sessions k = get-insert sid k entry m.sessions

  created_index :
      (h : TokenHash) → get h created.index ≡ (if hash token == h then some sid else get h m.index)
  unfolding create persist
  created_index h = get-insert (hash token) h sid m.index

  created_policy : created.policy ≡ m.policy
  unfolding create persist
  created_policy = refl

  module _ (c : IsConsistent m) (unused : get sid m.sessions ≡ none)
      (unheard : get (hash token) m.index ≡ none) where
    created_entry :
        (k : Sid) (e : SessionEntry) → At created k e → ((sid ≡ k) × (entry ≡ e)) ⊎ At m k e
    created_entry k e at = elim (Bool-cases (sid == k)) [
      | inl same ↦ inl (ground arith, some-inj entry e (ground (arith, created_sessions k)))
      | inr other ↦ inr (ground (arith, created_sessions k))
    ]

    owner_lem :
        (h : TokenHash) (k : Sid)
        → get h created.index ≡ some k
        → (e : SessionEntry) × At created k e × (1 ≤ claims e h)
    owner_lem h k q = elim (Bool-cases (hash token == h)) [
      | inl same ↦ (
        entry,
        ground (arith, created_sessions k, created_index h),
        ground (arith, entry_claims h),
      )
      | inr other ↦
          let (e, at, claimed) = c.owner h k (ground (arith, created_index h)) in
          (e, ground (arith, created_sessions k), claimed)
    ]

    owned_lem :
        (k : Sid) (e : SessionEntry) (h : TokenHash)
        → At created k e
        → 1 ≤ claims e h
        → get h created.index ≡ some k
    owned_lem k e h at claimed = elim (created_entry k e at) [
      | inl (same, it) ↦
          ground (arith, entry_claims h, created_index h, ap (λ (x : SessionEntry). claims x h) it)
      | inr old ↦ ground (arith, c.owned k e h old claimed, created_index h)
    ]

    distinct_lem : (k : Sid) (e : SessionEntry) (h : TokenHash) → At created k e → claims e h ≤ 1
    distinct_lem k e h at = elim (created_entry k e at) [
      | inl (same, it) ↦ ground (arith, entry_claims h, ap (λ (x : SessionEntry). claims x h) it)
      | inr old ↦ c.distinct k e h old
    ]

    named_lem : (k : Sid) (e : SessionEntry) → At created k e → e.sid ≡ k
    unfolding new_entry
    named_lem k e at = elim (created_entry k e at) [
      | inl (same, it) ↦ sym (ap (λ (x : SessionEntry). x.sid) it) ∙ same
      | inr old ↦ c.named k e old
    ]

    sound_lem : (k : Sid) (e : SessionEntry) → At created k e → IsSound m.policy e
    sound_lem k e at = elim (created_entry k e at) [
      | inl (same, it) ↦ rw it at entry-IsSound
      | inr old ↦ c.sound k e old
    ]

    pub create_lem : IsConsistent created
    create_lem = record {
      owner = owner_lem;
      owned = owned_lem;
      distinct = distinct_lem;
      named = named_lem;
      sound = λ k e at. rw created_policy (sound_lem k e at);
    }

    created-resolve_other :
        (h : TokenHash) (k : Sid) (t : Timestamp)
        → get h m.index ≡ some k
        → resolve created h t ≡ resolve m h t
    unfolding resolve entry_for sid_for_hash
    created-resolve_other h k t q =
        let (e, at, claimed) = c.owner h k q in
        ground (arith, created_sessions k, created_index h, created_policy)

    created-resolve :
        IsInstant now
        → IsLifetime m.policy.gen_ttl_secs
        → IsLifetime m.policy.idle_ttl_secs
        → IsLifetime m.policy.absolute_ttl_secs
        → resolve created (hash token) now ≡ Resolution.active sid 1 true
    unfolding resolve entry_for sid_for_hash
    created-resolve sane ttl idle absolute =
        let here : get (hash token) created.index ≡ some sid =
          ground (arith, created_index (hash token)) in
        let at : get sid created.sessions ≡ some entry = ground (arith, created_sessions sid) in
        rw (here, resolve, at, created_policy) (entry-classify sane ttl idle absolute)

-- A new session, with an identifier and a token hash that the map does not hold: the map stays
-- consistent, a cookie `h` of another session is answered as before at any instant `t`, and the
-- cookie handed out authenticates at once as generation 1, the newest. The clock is sane and the
-- policy's lifetimes are positive and below 2^63.
pub create-resolve :
    (hash : SessionToken → TokenHash) (token : SessionToken) (m : SessionMap) (sid : Sid)
    (custody : CustodyId) (sub : Subject) (now : Timestamp) (h : TokenHash) (k : Sid)
    (t : Timestamp)
    → IsConsistent m
    → get sid m.sessions ≡ none
    → get (hash token) m.index ≡ none
    → get h m.index ≡ some k
    → IsInstant now
    → IsLifetime m.policy.gen_ttl_secs
    → IsLifetime m.policy.idle_ttl_secs
    → IsLifetime m.policy.absolute_ttl_secs
    → let m' = (create hash token m sid custody sub now).0 in
      IsConsistent m'
      × (resolve m' h t ≡ resolve m h t)
      × (resolve m' (hash token) now ≡ Resolution.active sid 1 true)
create-resolve hash token m sid custody sub now h k t c unused unheard known sane ttl idle
      absolute =
    (
      create_lem hash token m sid custody sub now c unused unheard,
      created-resolve_other hash token m sid custody sub now c unused unheard h k t known,
      created-resolve hash token m sid custody sub now c unused unheard sane ttl idle absolute,
    )
