-- ===== src/Store/RotatedRows.antt =====
-- store/repo.rs: the tables after a rotation.
use session_broker.Base.{
  ℕ, ◌≤◌, ◌≡◌, ◌⊎◌, refl, ap, ◌∷◌, [], ◌++◌, Bool, true, List, none, some, leb, ◌==◌, if◌then◌else◌,
  inl, inr, Bool-cases, arith, insert, update, none-some, some-inj,
}
use session_broker.Clock.{Timestamp}
use session_broker.Session.Types.{Sid, TokenHash, Generation}
use session_broker.Session.Entry.{find_gen}
use session_broker.Session.Reaping.{hashes}
use session_broker.Store.Rows.{GenerationRow, Db}
use session_broker.Store.Statements.{with_progress, with_superseded}
use session_broker.Store.Effects.{delete_all}
use session_broker.Store.Rotated.{closed}

abbrev pub row_of : Sid → Generation → GenerationRow
row_of sid g = record {
  token_hash = g.token_hash;
  sid = sid;
  gen_no = g.gen_no;
  created_at = g.created_at;
  active_until = g.active_until;
  superseded_at = none;
}

abbrev pub rotated_db :
    Db → Sid → Generation → TokenHash → Timestamp → List TokenHash → ℕ → Timestamp → Db
rotated_db db sid mg last now purged n idle = record db {
  sessions = update sid (with_progress n idle) db.sessions;
  generations =
      delete_all purged
        (update last (with_superseded now) (insert mg.token_hash (row_of sid mg) db.generations));
}

pub never_both : {n : ℕ} (h : TokenHash) → n ≡ 0 → 1 ≤ n → ⊥
never_both h e le = omega arith

pub le_both : {a b c : ℕ} → a ≤ b → b ≤ c → a ≤ c
le_both h k = omega arith

pub le_of_eq : {a b c : ℕ} → a ≡ b → b ≤ c → a ≤ c
le_of_eq h k = omega arith

pub zero_or_more : (n : ℕ) → (n ≡ 0) ⊎ (1 ≤ n)
zero_or_more n = elim (Bool-cases (leb 1 n)) [
  | inl more ↦ inr (ground (arith, more))
  | inr less ↦ inl (ground (arith, less))
]

abbrev pub moved : Bool → Timestamp → GenerationRow → GenerationRow
moved b now r = if b then with_superseded now r else r

pub found_last :
    (h : TokenHash) (gs : List Generation) (mg g : Generation)
    → find_gen h (gs ++ mg ∷ []) ≡ some g
    → (find_gen h gs ≡ some g) ⊎ (((mg.token_hash == h) ≡ true) × (mg ≡ g))
unfolding find_gen
found_last h [] mg g found = elim (Bool-cases (mg.token_hash == h)) [
  | inl same ↦ inr (same, some-inj mg g (ground (arith, found)))
  | inr apart ↦ let never : none ≡ some g = ground (arith, found) in elim (none-some never) [ ]
]
found_last h (x ∷ gs) mg g found = elim (Bool-cases (x.token_hash == h)) [
  | inl same ↦ inl (ground (arith, found))
  | inr apart ↦ elim (found_last h gs mg g (ground (arith, found))) [
    | inl there ↦ inl (ground (arith, there))
    | inr here ↦ inr here
  ]
]

pub hashes-closed :
    (now : Timestamp) (older : List Generation) (newest : Generation)
    → hashes (older ++ closed now newest ∷ []) ≡ hashes (older ++ newest ∷ [])
hashes-closed now [] newest = refl
hashes-closed now (x ∷ older) newest =
    ap (λ (l : List TokenHash). x.token_hash ∷ l) (hashes-closed now older newest)
