-- ===== src/Store/Effects.antt =====
-- session.rs, `apply`, and store/repo.rs: the commands of a mutation's effects, on the tables.
use mathlib.Core.List.{append-nil, append_assoc}
use session_broker.Base.{
  ℕ, ◌≡◌, refl, sym, ap, ◌∙◌, ◌∷◌, [], ◌++◌, List, Option, none, some, leb, if◌then◌else◌, inl, inr,
  Option-cases, arith, get, remove, get-remove, none-some, some-inj, count,
}
use session_broker.Clock.{Timestamp}
use session_broker.Session.Types
use session_broker.Session.Types.{Sid, TokenHash, Generation, IndexEffects, SessionMap}
use session_broker.Session.Map.{sent, persist, apply, apply_added, apply_superseded, apply_purged}
use session_broker.Store.Rows.{GenerationRow, Db}
use session_broker.Store.Statements.{delete_generation}
use session_broker.Store.Writer.{apply_session}
use session_broker.Store.Mirror.{apply_all, stopped, continued}

pub apply_all-append :
    (xs ys : List Types.Command) (db db1 db2 : Db)
    → apply_all xs db ≡ some db1
    → apply_all ys db1 ≡ some db2
    → apply_all (xs ++ ys) db ≡ some db2
unfolding apply_all
apply_all-append [] ys db db1 db2 ran ran' = ap (apply_all ys) (some-inj db db1 ran) ∙ ran'
apply_all-append (x ∷ xs) ys db db1 db2 ran ran' = elim (Option-cases (apply_session x db)) [
  | inl error ↦ elim (none-some (sym (stopped x xs db error) ∙ ran)) [ ]
  | inr (db', fine) ↦
      continued x (xs ++ ys) db db' fine
      ∙ apply_all-append xs ys db' db1 db2 (sym (continued x xs db db' fine) ∙ ran) ran'
]

abbrev pub added_cmds : Sid → Option Generation → List Types.Command
added_cmds sid none = []
added_cmds sid (some g) =
    Types.Command.insert_generation sid g.gen_no g.token_hash g.created_at g.active_until ∷ []

abbrev pub superseded_cmds : Option (TokenHash × Timestamp) → List Types.Command
superseded_cmds none = []
superseded_cmds (some (h, at)) = Types.Command.supersede_generation h at ∷ []

abbrev pub purged_cmds : List TokenHash → List Types.Command
purged_cmds [] = []
purged_cmds (h ∷ hs) = Types.Command.delete_generation h ∷ purged_cmds hs

abbrev pub effect_cmds : Sid → IndexEffects → List Types.Command
effect_cmds sid eff =
    added_cmds sid eff.added ++ (superseded_cmds eff.superseded ++ purged_cmds eff.purged)

purged_sent :
    (hs : List TokenHash) (m : SessionMap) (before : List Types.Command)
    → m.durability ≡ some before
    → (apply_purged hs m).durability ≡ some (before ++ purged_cmds hs)
unfolding apply_purged persist
purged_sent [] m before queue = queue ∙ ap some (sym (append-nil before))
purged_sent (h ∷ hs) m before queue =
    purged_sent hs _ (before ++ Types.Command.delete_generation h ∷ [])
      (ap (sent (Types.Command.delete_generation h)) queue)
    ∙ ap some (append_assoc before (Types.Command.delete_generation h ∷ []) (purged_cmds hs))

superseded_sent :
    (o : Option (TokenHash × Timestamp)) (m : SessionMap) (before : List Types.Command)
    → m.durability ≡ some before
    → (apply_superseded o m).durability ≡ some (before ++ superseded_cmds o)
unfolding apply_superseded persist
superseded_sent none m before queue = queue ∙ ap some (sym (append-nil before))
superseded_sent (some (h, at)) m before queue =
    ap (sent (Types.Command.supersede_generation h at)) queue

added_sent :
    (sid : Sid) (o : Option Generation) (m : SessionMap) (before : List Types.Command)
    → m.durability ≡ some before
    → (apply_added sid o m).durability ≡ some (before ++ added_cmds sid o)
unfolding apply_added persist
added_sent sid none m before queue = queue ∙ ap some (sym (append-nil before))
added_sent sid (some g) m before queue =
    ap
      (sent (Types.Command.insert_generation sid g.gen_no g.token_hash g.created_at g.active_until))
      queue

-- What `apply` sends to the writer.
pub apply_sent :
    (eff : IndexEffects) (sid : Sid) (m : SessionMap) (before : List Types.Command)
    → m.durability ≡ some before
    → (apply eff sid m).durability ≡ some (before ++ effect_cmds sid eff)
unfolding apply
apply_sent eff sid m before queue =
    let one = added_sent sid eff.added m before queue in
    let m1 = apply_added sid eff.added m in
    let two = superseded_sent eff.superseded m1 (before ++ added_cmds sid eff.added) one in
    let m2 = apply_superseded eff.superseded m1 in
    let three =
      purged_sent eff.purged m2
        ((before ++ added_cmds sid eff.added) ++ superseded_cmds eff.superseded) two in
    three
    ∙ ap some (
        append_assoc (before ++ added_cmds sid eff.added) (superseded_cmds eff.superseded)
          (purged_cmds eff.purged))
    ∙ ap some (
        append_assoc before (added_cmds sid eff.added)
          (superseded_cmds eff.superseded ++ purged_cmds eff.purged))

unfoldable pub delete_all : List TokenHash → List (ℕ × GenerationRow) → List (ℕ × GenerationRow)
delete_all [] gs = gs
delete_all (h ∷ hs) gs = delete_all hs (remove h gs)

pub purged_applied :
    (hs : List TokenHash) (db : Db)
    → apply_all (purged_cmds hs) db
      ≡ some (record db { generations = delete_all hs db.generations })
unfolding apply_all apply_session delete_generation delete_all
purged_applied [] db = refl
purged_applied (h ∷ hs) db = purged_applied hs (record db { generations = remove h db.generations })

pub get-delete_all :
    (k : TokenHash) (hs : List TokenHash) (gs : List (ℕ × GenerationRow))
    → get k (delete_all hs gs) ≡ (if leb 1 (count k hs) then none else get k gs)
unfolding delete_all count
get-delete_all k [] gs = refl
get-delete_all k (h ∷ hs) gs = ground (arith, get-delete_all k hs (remove h gs), get-remove h k gs)
