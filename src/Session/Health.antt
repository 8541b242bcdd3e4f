-- ===== src/Session/Health.antt =====
-- session.rs, `SessionMap::set_custody_status`, and the invariant of the map.
use mathlib.Core.Path.{subst}
use session_broker.Base.{
  none-some, some-inj, ℕ, ◌≤◌, ◌≡◌, refl, ap, sym, ◌∙◌, ◌∷◌, [], true, false, List, none, some,
  ◌==◌, arith, get, inl, inr, Bool-cases, Option-cases,
}
use session_broker.Session.Types.{
  Sid, CustodyId, CustodyStatus, TokenHash, SessionPolicy, SessionEntry, SessionMap,
  custody_changed,
}
use session_broker.Session.Entry.{all_hashes}
use session_broker.Session.Map.{announce}
use session_broker.Session.Kill.{
  with_status, set_statuses, changed_sids, announce_all, set_custody_status,
}
use session_broker.Session.Hashes.{claims}
use session_broker.Session.Sound.{IsSound}
use session_broker.Session.Consistent.{At, IsConsistent}

head_lem :
    (k j : Sid) (e x : SessionEntry) (es : List (ℕ × SessionEntry))
    → get k ((j, x) ∷ es) ≡ some e
    → (j == k) ≡ true
    → x ≡ e
unfolding get
head_lem k j e x es h same = some-inj x e (ground arith)

tail_lem :
    (k j : Sid) (e x : SessionEntry) (es : List (ℕ × SessionEntry))
    → get k ((j, x) ∷ es) ≡ some e
    → (j == k) ≡ false
    → get k es ≡ some e
unfolding get
tail_lem k j e x es h other = ground arith

module _ (custody : CustodyId) (status : CustodyStatus) where
  set_statuses-none :
      (k : Sid) (es : List (ℕ × SessionEntry))
      → get k es ≡ none
      → get k (set_statuses custody status es) ≡ none
  unfolding get set_statuses
  set_statuses-none k [] h = refl
  set_statuses-none k ((j, e) ∷ es) h = ground (arith, set_statuses-none k es)

  set_statuses-some :
      (k : Sid) (e : SessionEntry) (es : List (ℕ × SessionEntry))
      → get k es ≡ some e
      → get k (set_statuses custody status es) ≡ some (with_status custody status e)
  unfolding get set_statuses
  set_statuses-some k e [] h = cc
  set_statuses-some k e ((j, x) ∷ es) h = elim (Bool-cases (j == k)) [
    | inl same ↦ rw (same) (
        ap (λ (y : SessionEntry). some (with_status custody status y)) (head_lem k j e x es h same))
    | inr other ↦ rw (other) (set_statuses-some k e es (tail_lem k j e x es h other))
  ]

  pub announce_all_rest :
      (sids : List Sid) (m : SessionMap)
      → let m' = announce_all status sids m in
        (m'.sessions ≡ m.sessions) × (m'.index ≡ m.index) × (m'.policy ≡ m.policy)
  unfolding announce_all announce
  announce_all_rest [] m = (refl, refl, refl)
  announce_all_rest (sid ∷ sids) m =
      announce_all_rest sids (announce (custody_changed sid status) m)

  claims-with_status :
      (e : SessionEntry) (h : TokenHash) → claims (with_status custody status e) h ≡ claims e h
  unfolding all_hashes
  claims-with_status e h = elim (Bool-cases (e.custody == custody)) [
    | inl same ↦ rw same refl
    | inr other ↦ rw other refl
  ]

  sid-with_status : (e : SessionEntry) → (with_status custody status e).sid ≡ e.sid
  sid-with_status e = elim (Bool-cases (e.custody == custody)) [
    | inl same ↦ rw same refl
    | inr other ↦ rw other refl
  ]

  pub custody-with_status : (e : SessionEntry) → (with_status custody status e).custody ≡ e.custody
  custody-with_status e = elim (Bool-cases (e.custody == custody)) [
    | inl same ↦ rw same refl
    | inr other ↦ rw other refl
  ]

  pub with_status-IsSound :
      (p : SessionPolicy) (e : SessionEntry)
      → IsSound p e
      → IsSound p (with_status custody status e)
  with_status-IsSound p e s = elim (Bool-cases (e.custody == custody)) [
    | inl same ↦ rw same (record {
      older = s.older;
      newest = s.newest;
      gens_eq = s.gens_eq;
      newest_no = s.newest_no;
      newest_open = s.newest_open;
      older_closed = s.older_closed;
      live_bound = s.live_bound;
      retired_bound = s.retired_bound;
      idle_bound = s.idle_bound;
    })
    | inr other ↦ rw other s
  ]

  module _ (m : SessionMap) where
    abbrev pub updated : SessionMap
    updated = (set_custody_status m custody status).0

    pub updated_rest : (updated.index ≡ m.index) × (updated.policy ≡ m.policy)
    unfolding set_custody_status
    updated_rest =
        let rest =
          announce_all_rest (changed_sids custody status m.sessions)
            (record m { sessions = set_statuses custody status m.sessions }) in
        (rest.1, rest.2)

    updated_sessions : updated.sessions ≡ set_statuses custody status m.sessions
    unfolding set_custody_status
    updated_sessions =
        (announce_all_rest (changed_sids custody status m.sessions)
          (record m { sessions = set_statuses custody status m.sessions })).0

    pub updated-At :
        (k : Sid) (e : SessionEntry) → At m k e → At updated k (with_status custody status e)
    updated-At k e at = rw updated_sessions (set_statuses-some k e m.sessions at)

    was-At :
        (k : Sid) (e : SessionEntry)
        → At updated k e
        → (x : SessionEntry) × At m k x × (with_status custody status x ≡ e)
    was-At k e at = elim (Option-cases (get k m.sessions)) [
      | inl missing ↦
          elim (none-some
            (sym (set_statuses-none k m.sessions missing) ∙ (rw updated_sessions at at))) [ ]
      | inr (x, found) ↦ (x, found, some-inj _ e (sym (updated-At k x found) ∙ at))
    ]

    -- A change of a grant's health keeps a consistent map consistent.
    pub set_custody_status-IsConsistent : IsConsistent m → IsConsistent updated
    set_custody_status-IsConsistent c = record {
      owner = λ h k q.
          let (e, at, claimed) = c.owner h k (rw updated_rest.0 at q) in
          (with_status custody status e, updated-At k e at, rw (claims-with_status e h) claimed);
      owned = λ k e h at claimed.
          let (x, found, same) = was-At k e at in
          let held : 1 ≤ claims x h = rw (sym (claims-with_status x h), same) claimed in
          rw (updated_rest.0) (c.owned k x h found held);
      distinct = λ k e h at.
          let (x, found, same) = was-At k e at in
          subst (λ (y : SessionEntry). claims y h ≤ 1) same
            (rw (claims-with_status x h) (c.distinct k x h found));
      named = λ k e at.
          let (x, found, same) = was-At k e at in
          subst (λ (y : SessionEntry). y.sid ≡ k) same (sid-with_status x ∙ c.named k x found);
      sound = λ k e at.
          let (x, found, same) = was-At k e at in
          rw (updated_rest.1) (
            subst (λ (y : SessionEntry). IsSound m.policy y) same
              (with_status-IsSound m.policy x (c.sound k x found)));
    }
