-- ===== src/Session/Sweep.antt =====
-- session.rs, `SessionMap::sweep`. `DashMap` visits its entries in an unspecified order; here it
-- is that of the list.
use session_broker.Base.{
  ℕ, suc, ◌+◌, ◌-◌, ◌∷◌, [], ◌++◌, Bool, false, List, Option, none, some, leb, if◌then◌else◌, get,
  insert, remove, length, map,
}
use session_broker.Clock.{Timestamp, since}
use session_broker.Session.Types.{
  Sid, TokenHash, SessionPolicy, ExpiredReason, SessionEntry, SessionMap,
}
use session_broker.Session.Entry.{session_expiry, reap_generations, all_hashes}
use session_broker.Session.Map.{apply}

abbrev elapsed_grace : Option Timestamp → Timestamp → SessionPolicy → Bool
elapsed_grace none now policy = false
elapsed_grace (some at) now policy = leb policy.grace_secs (since now at)

-- Why the session is over, if it is, decides what its grace is counted from.
abbrev pub collectible_for : Option ExpiredReason → SessionEntry → Timestamp → SessionPolicy → Bool
collectible_for none e now policy = false
collectible_for (some ExpiredReason.logged_out) e now policy =
    elapsed_grace e.tombstoned_at now policy
collectible_for (some _) e now policy = leb policy.grace_secs (since now e.idle_exp)

unfoldable pub collectible : SessionEntry → Timestamp → SessionPolicy → Bool
collectible e now policy = collectible_for (session_expiry e now policy) e now policy

pub record Sweep : Type 0 where
  pub map : SessionMap
  pub removable : List Sid
  pub retired : ℕ

unfoldable pub sweep_entry : Timestamp → ℕ → SessionEntry → Sweep → Sweep
unfolding collectible
sweep_entry now k e s =
    let policy = s.map.policy in
    if collectible e now policy
    then record s { removable = s.removable ++ e.sid ∷ [] }
    else let (e', effects) = reap_generations e now policy in
      let stored = record (s.map) { sessions = insert k e' s.map.sessions } in
      record s {
        map = apply effects e.sid stored;
        retired = s.retired + (length e.gens - length e'.gens);
      }

-- Each visit reads the entry as it stands.
unfoldable pub sweep_key : Timestamp → Sid → Sweep → Sweep
sweep_key now k s = elim (get k s.map.sessions) [ none ↦ s | some e ↦ sweep_entry now k e s ]

unfoldable pub sweep_keys : Timestamp → List Sid → Sweep → Sweep
unfolding sweep_key
sweep_keys now [] s = s
sweep_keys now (k ∷ ks) s = sweep_keys now ks (sweep_key now k s)

unfoldable pub forget_hashes : List TokenHash → List (ℕ × Sid) → List (ℕ × Sid)
forget_hashes [] index = index
forget_hashes (h ∷ hs) index = forget_hashes hs (remove h index)

-- The second loop: the sessions that go, with every hash that they claim.
unfoldable pub collect_one : Sid → SessionMap × ℕ → SessionMap × ℕ
collect_one sid (m, removed) = elim (get sid m.sessions) [
  | none ↦ (m, removed)
  | some e ↦ (
    record m { sessions = remove sid m.sessions; index = forget_hashes (all_hashes e) m.index },
    suc removed,
  )
]

unfoldable pub collect : List Sid → SessionMap × ℕ → SessionMap × ℕ
collect [] s = s
collect (sid ∷ sids) s = collect sids (collect_one sid s)

-- The sessions removed, and the generations retired.
unfoldable pub sweep : SessionMap → Timestamp → SessionMap × ℕ × ℕ
unfolding sweep_keys
sweep m now =
    let keys = map (λ (x : ℕ × SessionEntry). x.0) m.sessions in
    let s = sweep_keys now keys (record { map = m; removable = []; retired = 0 }) in
    let (m', removed) = collect s.removable (s.map, 0) in (m', removed, s.retired)
