-- ===== src/Store/Atomic.antt =====
-- store/writer.rs, `apply_batch`: what a batch leaves on disk, and what its callers are told.
use mathlib.Core.Path.{subst}
use mathlib.Core.List.{append-nil, append_assoc, map-append}
use session_broker.Store.Statements.{insert_txn}
use session_broker.Base.{
  none-some, some-inj, ℕ, ◌≡◌, ◌⊎◌, refl, sym, ap, ◌∙◌, ◌∷◌, [], ◌++◌, Bool, true, false, ◌&&◌,
  List, map, Option, none, some, inl, inr, Bool-cases, Option-cases, if◌then◌else◌, All, All-append,
}
use session_broker.Store.Rows.{Db, AuditRow}
use session_broker.Store.Writer.{
  Caller, Command, session, insert_txn_row, delete_expired, custody, admin, audit, prune, reap_rows,
  reseal, ping, shutdown, Reply, failed, done, acted, Batch, Disk, BatchOutcome, on_db, acked,
  on_admin, begin, finish, replies, step, execute, counted, runs_sql, run_commands, apply_batch,
  apply_session, apply_custody,
}

module _ {W : Type 0} where
  -- Who waits for an answer to a custody write, and to an admin write, in the order of the batch.
  abbrev pub custody_callers : List (Command W) → List Caller
  custody_callers [] = []
  custody_callers (custody write caller ∷ cs) = caller ∷ custody_callers cs
  custody_callers (_ ∷ cs) = custody_callers cs

  abbrev pub admin_callers : List (Command W) → List Caller
  admin_callers [] = []
  admin_callers (admin w row caller ∷ cs) = caller ∷ admin_callers cs
  admin_callers (_ ∷ cs) = admin_callers cs

callers-cons :
    {W : Type 0} (c : Command W) (cs : List (Command W))
    → (custody_callers (c ∷ cs) ≡ custody_callers (c ∷ []) ++ custody_callers cs)
      × (admin_callers (c ∷ cs) ≡ admin_callers (c ∷ []) ++ admin_callers cs)
callers-cons (session cmd) cs = (refl, refl)
callers-cons (insert_txn_row row) cs = (refl, refl)
callers-cons (delete_expired before) cs = (refl, refl)
callers-cons (custody write caller) cs = (refl, refl)
callers-cons (admin w row caller) cs = (refl, refl)
callers-cons (audit row) cs = (refl, refl)
callers-cons (prune before) cs = (refl, refl)
callers-cons (reap_rows dead_before txn_before) cs = (refl, refl)
callers-cons reseal cs = (refl, refl)
callers-cons ping cs = (refl, refl)
callers-cons shutdown cs = (refl, refl)

-- Every answer is an error.
All-failed_custody :
    (cs : List Caller) → All (λ (x : Caller × Reply). x.1 ≡ failed) (map (λ c. (c, failed)) cs)
All-failed_custody [] = tt
All-failed_custody (c ∷ cs) = (refl, All-failed_custody cs)

All-failed_admin :
    (as' : List (Caller × Bool))
    → All (λ (x : Caller × Reply). x.1 ≡ failed) (map (λ a. (a.0, failed)) as')
All-failed_admin [] = tt
All-failed_admin (a ∷ as') = (refl, All-failed_admin as')

All-failed :
    (cs : List Caller) (as' : List (Caller × Bool))
    → All
        (λ (x : Caller × Reply). x.1 ≡ failed)
        (map (λ c. (c, failed)) cs ++ map (λ a. (a.0, failed)) as')
All-failed cs as' =
    All-append (λ (x : Caller × Reply). x.1 ≡ failed) _ _ (All-failed_custody cs)
      (All-failed_admin as')

-- A command that went through did not fail for SQLite's own reasons.
pub fine_counted :
    {X : Type 0} (b : Bool) (o : Option (Batch X)) (b' : Batch X)
    → (if b then none else o) ≡ some b'
    → o ≡ some b'
fine_counted true o b' h = elim (none-some h) [ ]
fine_counted false o b' h = h

module _ {X W : Type 0} (statement : W → X → Option (X × Bool)) (unapplied_reason : W → ℕ)
    (broken : ℕ → Bool) where
  -- The reference: one command after another, and nothing if one fails.
  unfoldable pub replay : List (Command W) → Batch X → Option (Batch X)
  replay [] b = some b
  replay (c ∷ cs) b = elim (step statement unapplied_reason broken c b) [
    | some b' ↦ replay cs b'
    | none ↦ none
  ]

  run_commands-replay :
      (cs : List (Command W)) (b : Batch X)
      → ((run_commands statement unapplied_reason broken cs b).1 ≡ true
          × (replay cs b ≡ some (run_commands statement unapplied_reason broken cs b).0))
        ⊎ ((run_commands statement unapplied_reason broken cs b).1 ≡ false × (replay cs b ≡ none))
  unfolding run_commands replay
  run_commands-replay [] b = inl (refl, refl)
  run_commands-replay (c ∷ cs) b =
      elim (Option-cases (step statement unapplied_reason broken c b)) [
        | inl error ↦ rw (error, run_commands, replay) (inr (refl, refl))
        | inr (b', fine) ↦ rw (fine, run_commands, replay) (run_commands-replay cs b')
      ]

  -- The callers of a batch, with the answers collected so far.
  abbrev pub Answers : Batch X → List Caller → List Caller → Type 0
  Answers b cs as' = (b.acks ≡ cs) × (map (λ (a : Caller × Bool). a.0) b.admin_acks ≡ as')

  kept :
      (b b'' b' : Batch X)
      → b''.acks ≡ b.acks
      → b''.admin_acks ≡ b.admin_acks
      → some b'' ≡ some b'
      → Answers b' (b.acks ++ []) (map (λ (a : Caller × Bool). a.0) b.admin_acks ++ [])
  kept b b'' b' same_acks same_admin h = (
    ap (λ (x : Batch X). x.acks) (sym (some-inj b'' b' h)) ∙ same_acks ∙ sym (append-nil b.acks),
    ap (λ (x : Batch X). map (λ (a : Caller × Bool). a.0) x.admin_acks) (sym (some-inj b'' b' h))
        ∙ ap (map (λ (a : Caller × Bool). a.0)) same_admin
        ∙ sym (append-nil (map (λ (a : Caller × Bool). a.0) b.admin_acks)),
  )

  kept_db :
      (b b' : Batch X) (o : Option Db)
      → on_db b o ≡ some b'
      → Answers b' (b.acks ++ []) (map (λ (a : Caller × Bool). a.0) b.admin_acks ++ [])
  kept_db b b' none h = elim (none-some h) [ ]
  kept_db b b' (some db) h = kept b (record b { db = db }) b' refl refl h

  acked_answers :
      (caller : Caller) (b b' : Batch X) (o : Option Db)
      → acked caller (on_db b o) ≡ some b'
      → Answers b' (b.acks ++ caller ∷ []) (map (λ (a : Caller × Bool). a.0) b.admin_acks ++ [])
  acked_answers caller b b' none h = elim (none-some h) [ ]
  acked_answers caller b b' (some db) h = (
    ap (λ (x : Batch X). x.acks) (sym (some-inj _ b' h)),
    ap (λ (x : Batch X). map (λ (a : Caller × Bool). a.0) x.admin_acks) (sym (some-inj _ b' h))
        ∙ sym (append-nil (map (λ (a : Caller × Bool). a.0) b.admin_acks)),
  )

  admin_answers :
      (reason : ℕ) (row : Option AuditRow) (caller : Caller) (b b' : Batch X)
      (o : Option (X × Bool))
      → on_admin reason row caller b o ≡ some b'
      → Answers b' (b.acks ++ []) (map (λ (a : Caller × Bool). a.0) b.admin_acks ++ caller ∷ [])
  admin_answers reason row caller b b' none h = elim (none-some h) [ ]
  admin_answers reason row caller b b' (some (x, outcome)) h = (
    ap (λ (y : Batch X). y.acks) (sym (some-inj _ b' h)) ∙ sym (append-nil b.acks),
    ap (λ (y : Batch X). map (λ (a : Caller × Bool). a.0) y.admin_acks) (sym (some-inj _ b' h))
        ∙ map-append (λ (a : Caller × Bool). a.0) b.admin_acks ((caller, outcome) ∷ []),
  )

  execute_answers :
      (c : Command W) (b b' : Batch X)
      → execute statement unapplied_reason broken c b ≡ some b'
      → Answers b'
          (b.acks ++ custody_callers (c ∷ []))
          (map (λ (a : Caller × Bool). a.0) b.admin_acks ++ admin_callers (c ∷ []))
  unfolding execute
  execute_answers (session cmd) b b' h = kept_db b b' (apply_session cmd b.db) h
  execute_answers (insert_txn_row row) b b' h = kept_db b b' (insert_txn b.db row) h
  execute_answers (delete_expired before) b b' h = kept b _ b' refl refl h
  execute_answers (custody write caller) b b' h =
      acked_answers caller b b' (apply_custody write b.db) h
  execute_answers (admin w row caller) b b' h =
      admin_answers (unapplied_reason w) row caller b b' (statement w b.tables) h
  execute_answers (audit row) b b' h = kept b _ b' refl refl h
  execute_answers (prune before) b b' h = kept b _ b' refl refl h
  execute_answers (reap_rows dead_before txn_before) b b' h = kept b _ b' refl refl h
  execute_answers reseal b b' h = kept b _ b' refl refl h
  execute_answers ping b b' h = kept b _ b' refl refl h
  execute_answers shutdown b b' h = kept b _ b' refl refl h

  counted_answers :
      (b' : Batch X) (o : Option (Batch X)) (cs as' : List Caller)
      → ((b1 : Batch X) → o ≡ some b1 → Answers b1 cs as')
      → counted statement unapplied_reason broken o ≡ some b'
      → Answers b' cs as'
  counted_answers b' none cs as' told h = elim (none-some h) [ ]
  counted_answers b' (some b1) cs as' told h =
      subst (λ (x : Batch X). Answers x cs as') (some-inj _ b' h) (told b1 refl)

  step_answers :
      (c : Command W) (b b' : Batch X)
      → step statement unapplied_reason broken c b ≡ some b'
      → Answers b'
          (b.acks ++ custody_callers (c ∷ []))
          (map (λ (a : Caller × Bool). a.0) b.admin_acks ++ admin_callers (c ∷ []))
  unfolding step
  step_answers c b b' h =
      counted_answers b' (execute statement unapplied_reason broken c b) _ _ (execute_answers c b)
        (fine_counted (runs_sql statement unapplied_reason broken c && broken b.applied) _ b' h)

  pub replay-step :
      (c : Command W) (cs : List (Command W)) (b b1 : Batch X)
      → step statement unapplied_reason broken c b ≡ some b1
      → replay (c ∷ cs) b ≡ replay cs b1
  unfolding replay
  replay-step c cs b b1 fine = rw (fine, replay) refl

  pub replay_stop :
      (c : Command W) (cs : List (Command W)) (b : Batch X)
      → step statement unapplied_reason broken c b ≡ none
      → replay (c ∷ cs) b ≡ none
  unfolding replay
  replay_stop c cs b error = rw (error, replay) refl

  replay_answers :
      (cs : List (Command W)) (b b' : Batch X)
      → replay cs b ≡ some b'
      → Answers b'
          (b.acks ++ custody_callers cs)
          (map (λ (a : Caller × Bool). a.0) b.admin_acks ++ admin_callers cs)
  unfolding replay
  replay_answers [] b b' h = kept b b b' refl refl h
  replay_answers (c ∷ cs) b b' h =
      elim (Option-cases (step statement unapplied_reason broken c b)) [
        | inl error ↦ elim (none-some (sym (replay_stop c cs b error) ∙ h)) [ ]
        | inr (b1, fine) ↦
            let here = step_answers c b b1 fine in
            let rest = replay_answers cs b1 b' (sym (replay-step c cs b b1 fine) ∙ h) in
            let callers = callers-cons c cs in
            (
              rest.0
                  ∙ ap (λ (l : List Caller). l ++ custody_callers cs) here.0
                  ∙ append_assoc b.acks (custody_callers (c ∷ [])) (custody_callers cs)
                  ∙ ap (λ (l : List Caller). b.acks ++ l) (sym callers.0),
              rest.1
                  ∙ ap (λ (l : List Caller). l ++ admin_callers cs) here.1
                  ∙ append_assoc (map (λ (a : Caller × Bool). a.0) b.admin_acks)
                      (admin_callers (c ∷ [])) (admin_callers cs)
                  ∙ ap (λ (l : List Caller). map (λ (a : Caller × Bool). a.0) b.admin_acks ++ l)
                      (sym callers.1),
            )
      ]

  -- What a batch comes to. It committed: the commands ran one after another on what was on disk,
  -- the result is on disk, and every caller of a custody write is told `done`, every caller of an
  -- admin write what its write did, in the order of the batch. Or it did not, for one of three
  -- reasons: the disk is as it was, and every answer is an error.
  abbrev pub IsAllOrNothing : Bool → Bool → Disk X → List (Command W) → BatchOutcome X → Type 0
  IsAllOrNothing begins commits d batch r =
      ((r.committed ≡ true)
        × (begins ≡ true)
        × (commits ≡ true)
        × (b : Batch X) × (replay batch (begin d) ≡ some b)
        × (r.disk ≡ record { db = b.db; tables = b.tables })
        × (r.acks ≡ custody_callers batch)
        × (r.admin_acks ≡ b.admin_acks)
        × (map (λ (a : Caller × Bool). a.0) b.admin_acks ≡ admin_callers batch)
        × (replies r
            ≡ map (λ c. (c, done)) (custody_callers batch)
              ++ map (λ a. (a.0, acted a.1)) b.admin_acks))
      ⊎ ((r.committed ≡ false)
          × ((begins ≡ false) ⊎ ((commits ≡ false) ⊎ (replay batch (begin d) ≡ none)))
          × (r.disk ≡ d)
          × All (λ (x : Caller × Reply). x.1 ≡ failed) (replies r))

  unfinished :
      (begins commits : Bool) (d : Disk X) (b : Batch X) (batch : List (Command W))
      → ((begins ≡ false) ⊎ ((commits ≡ false) ⊎ (replay batch (begin d) ≡ none)))
      → IsAllOrNothing begins commits d batch (finish d false b)
  unfolding finish replies
  unfinished begins commits d b batch why = inr (refl, why, refl, All-failed b.acks b.admin_acks)

  run_all :
      (d : Disk X) (batch : List (Command W)) (commits : Bool)
      → let r = run_commands statement unapplied_reason broken batch (begin d) in
        IsAllOrNothing true commits d batch (finish d (r.1 && commits) r.0)
  unfolding finish replies
  run_all d batch commits =
      let b = (run_commands statement unapplied_reason broken batch (begin d)).0 in
      elim (run_commands-replay batch (begin d)) [
        | inr (stopped, error) ↦ rw stopped (unfinished true commits d b batch (inr (inr error)))
        | inl (ran, same) ↦ elim (Bool-cases commits) [
          | inr lost ↦ rw (ran, lost) (unfinished true false d b batch (inr (inl refl)))
          | inl kept ↦
              let answers = replay_answers batch (begin d) _ same in
              rw (ran, kept)
                (inl (
                  refl,
                  refl,
                  refl,
                  _,
                  same,
                  refl,
                  answers.0,
                  refl,
                  answers.1,
                  ap
                      (λ (l : List Caller).
                        map (λ c. (c, done)) l ++ map (λ a. (a.0, acted a.1)) b.admin_acks)
                      answers.0,
                ))
        ]
      ]

  -- A batch is all or nothing, whatever the commands, whichever of them fail, and whether or not
  -- SQLite can begin and commit. If it committed, no command failed, the disk has the result of
  -- the commands one after another, and every caller that waits is told what became of its write.
  -- If it did not, the transaction could not begin or commit or a command failed, the disk is as
  -- it was, and no caller is told of a success.
  pub apply_batch-IsAllOrNothing :
      (begins commits : Bool) (d : Disk X) (batch : List (Command W))
      → IsAllOrNothing begins commits d batch
          (apply_batch statement unapplied_reason broken begins commits d batch)
  unfolding apply_batch
  apply_batch-IsAllOrNothing true commits d batch = run_all d batch commits
  apply_batch-IsAllOrNothing false commits d batch =
      unfinished false commits d (begin d) batch (inl refl)
