-- ===== src/Session/Map.antt =====
-- session.rs, `SessionMap`: construction, lookups, `create`, `rehydrate_session`, and the shared
-- tail of every mutation (`apply`, `persist`, `announce`).
use session_broker.Base.{
  ℕ, ◌∷◌, [], ◌++◌, Bool, true, false, List, Option, none, some, min, leb, if◌then◌else◌, get,
  insert, remove, length,
}
use session_broker.Clock.{Timestamp, plus_secs}
use session_broker.Session.Types.{
  Sid, CustodyId, Subject, SessionToken, TokenHash, SessionPolicy, alive, CustodyStatus, Generation,
  Resolution, SessionMeta, RestoredSession, SessionEvent, IndexEffects, SessionEntry, Command,
  insert_session, insert_generation, supersede_generation, delete_generation, SessionMap,
}
use session_broker.Session.Entry.{Checked, classify, meta}

unfoldable pub new : SessionPolicy → SessionMap
new policy = record {
  policy = policy;
  observer = none;
  sessions = [];
  index = [];
  durability = none;
}

-- The writer starts with an empty queue.
unfoldable pub with_durability : SessionPolicy → SessionMap
with_durability policy = record {
  policy = policy;
  observer = none;
  sessions = [];
  index = [];
  durability = some [];
}

unfoldable pub len : SessionMap → ℕ
len m = length m.sessions

abbrev pub sent {ℓ} : {A : Type ℓ} → A → Option (List A) → Option (List A)
sent a none = none
sent a (some before) = some (before ++ a ∷ [])

unfoldable pub persist : Command → SessionMap → SessionMap
persist cmd m = record m { durability = sent cmd m.durability }

unfoldable pub announce : SessionEvent → SessionMap → SessionMap
announce event m = record m { observer = sent event m.observer }

abbrev installed : Option (List SessionEvent) → Option (List SessionEvent)
installed none = some []
installed (some told) = some told

-- Only the first observer is installed.
unfoldable pub set_observer : SessionMap → SessionMap
set_observer m = record m { observer = installed m.observer }

unfoldable pub apply_added : Sid → Option Generation → SessionMap → SessionMap
apply_added sid none m = m
apply_added sid (some g) m =
    persist (insert_generation sid g.gen_no g.token_hash g.created_at g.active_until)
      (record m { index = insert g.token_hash sid m.index })

unfoldable pub apply_superseded : Option (TokenHash × Timestamp) → SessionMap → SessionMap
apply_superseded none m = m
apply_superseded (some (h, at)) m = persist (supersede_generation h at) m

unfoldable pub apply_purged : List TokenHash → SessionMap → SessionMap
apply_purged [] m = m
apply_purged (h ∷ hs) m =
    apply_purged hs (persist (delete_generation h) (record m { index = remove h m.index }))

unfoldable pub apply : IndexEffects → Sid → SessionMap → SessionMap
apply effects sid m =
    apply_purged effects.purged
      (apply_superseded effects.superseded (apply_added sid effects.added m))

unfoldable pub sid_for_hash : SessionMap → TokenHash → Option Sid
sid_for_hash m h = get h m.index

-- The entry behind a token.
unfoldable pub entry_for : SessionMap → TokenHash → Option SessionEntry
unfolding sid_for_hash
entry_for m h = elim (sid_for_hash m h) [ none ↦ none | some sid ↦ get sid m.sessions ]

unfoldable pub resolve : SessionMap → TokenHash → Timestamp → Resolution
unfolding entry_for
resolve m h now = elim (entry_for m h) [
  | none ↦ Resolution.unknown
  | some e ↦ classify e h now m.policy
]

unfoldable pub meta_for : SessionMap → TokenHash → Option (Checked SessionMeta)
unfolding entry_for
meta_for m h = elim (entry_for m h) [ none ↦ none | some e ↦ some (meta e) ]

unfoldable pub custody_for : SessionMap → TokenHash → Option CustodyId
unfolding entry_for
custody_for m h = elim (entry_for m h) [ none ↦ none | some e ↦ some e.custody ]

abbrev pub first_gen :
    (SessionToken → TokenHash) → SessionToken → SessionPolicy → Timestamp → Generation
first_gen hash token policy now = record {
  gen_no = 1;
  token_hash = hash token;
  created_at = now;
  active_until = plus_secs now policy.gen_ttl_secs;
  superseded_at = none;
}

unfoldable pub new_entry :
    (SessionToken → TokenHash)
    → SessionToken
    → SessionPolicy
    → Sid
    → CustodyId
    → Subject
    → Timestamp
    → SessionEntry
new_entry hash token policy sid custody sub now =
    let absolute_exp = plus_secs now policy.absolute_ttl_secs in
    record {
      sid = sid;
      custody = custody;
      sub = sub;
      gens = first_gen hash token policy now ∷ [];
      current_gen = 1;
      current_token = some token;
      idle_exp = min (plus_secs now policy.idle_ttl_secs) absolute_exp;
      absolute_exp = absolute_exp;
      status = alive;
      tombstoned_at = none;
      custody_status = CustodyStatus.ok;
      retired_gens = [];
    }

abbrev pub session_row : SessionEntry → Timestamp → Command
session_row e now = insert_session (record {
  sid = e.sid;
  custody_id = e.custody;
  sub = e.sub;
  current_gen = 1;
  idle_exp = e.idle_exp;
  absolute_exp = e.absolute_exp;
  status = alive;
  created_at = now;
})

-- The cookies that it returns are the token drawn, `meta` of the entry, and `rotated = true`.
unfoldable pub create :
    (SessionToken → TokenHash)
    → SessionToken
    → SessionMap
    → Sid
    → CustodyId
    → Subject
    → Timestamp
    → SessionMap × Checked SessionMeta
unfolding new_entry persist
create hash token m sid custody sub now =
    let e = new_entry hash token m.policy sid custody sub now in
    let stored = record m {
      sessions = insert sid e m.sessions;
      index = insert (hash token) sid m.index;
    } in
    (
      persist (insert_generation sid 1 (hash token) now (plus_secs now m.policy.gen_ttl_secs))
          (persist (session_row e now) stored),
      meta e,
    )

-- `sort_by_key(|g| g.gen_no)`, which is stable.
unfoldable pub insert_gen : Generation → List Generation → List Generation
insert_gen g [] = g ∷ []
insert_gen g (x ∷ xs) = if leb g.gen_no x.gen_no then g ∷ x ∷ xs else x ∷ insert_gen g xs

unfoldable pub sort_gens : List Generation → List Generation
unfolding insert_gen
sort_gens [] = []
sort_gens (g ∷ gs) = insert_gen g (sort_gens gs)

unfoldable pub index_gens : Sid → List Generation → List (ℕ × Sid) → List (ℕ × Sid)
index_gens sid [] index = index
index_gens sid (g ∷ gs) index = index_gens sid gs (insert g.token_hash sid index)

abbrev is_nil : List Generation → Bool
is_nil [] = true
is_nil (g ∷ gs) = false

unfoldable pub restored_entry : RestoredSession → SessionEntry
unfolding sort_gens
restored_entry r = record {
  sid = r.sid;
  custody = r.custody;
  sub = r.sub;
  gens = sort_gens r.gens;
  current_gen = r.current_gen;
  current_token = none;
  idle_exp = r.idle_exp;
  absolute_exp = r.absolute_exp;
  status = alive;
  tombstoned_at = none;
  custody_status = CustodyStatus.ok;
  retired_gens = [];
}

unfoldable pub rehydrate_session : SessionMap → RestoredSession → SessionMap × Bool
unfolding restored_entry index_gens
rehydrate_session m r = if is_nil r.gens then (m, false) else (
  record m {
    index = index_gens r.sid (sort_gens r.gens) m.index;
    sessions = insert r.sid (restored_entry r) m.sessions;
  },
  true,
)
