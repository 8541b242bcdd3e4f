-- ===== src/Audit/Events.antt =====
-- audit.rs and store/writer.rs: the sink, the calls on it and the writer together, and the events
-- in the queue.
use session_broker.Base.{ℕ, suc, ◌+◌, ◌≡◌, refl, ◌∷◌, [], ◌++◌, true, List, ◌<◌, length, arith}
use session_broker.Clock.{Timestamp}
use session_broker.Store.Rows.{AuditRow}
use session_broker.Store.Writer.{
  Command, session, insert_txn_row, delete_expired, custody, admin, audit, prune, reap_rows, reseal,
  ping, shutdown,
}
use session_broker.Audit.Calls.{Call, staying, events_in, is_event}
use session_broker.Audit.Sink.{
  AuditConfig, Sink, Phase, new, send, pseudonymise, check_depth, advance, prune_old, should_record,
  count_audits, release,
}

module _ {W : Type 0} where
  -- The events that the audit commands of a list stand for.
  unfoldable pub events : List (Command W) → ℕ
  events [] = 0
  events (audit row ∷ cs) = events_in row.action + events cs
  events (_ ∷ cs) = events cs

  -- The sink after `n` events, of whose commands the writer has taken `ts`, and the calls of
  -- `record` that have not returned, of which there are never more than `threads`. Any of them may
  -- take the next step.
  pub data IsReachable (pseudonym : ℕ → ℕ) (config : AuditConfig) (threads : ℕ)
      : ℕ → List (Command W) → List Call → Sink W → Type 0 where
    start : IsReachable pseudonym config threads 0 [] [] (new config)
    arrived :
        (n : ℕ) (ts : List (Command W)) (calls : List Call) (s : Sink W) (event : AuditRow)
        → is_event event.action ≡ true
        → length calls < threads
        → IsReachable pseudonym config threads n ts calls s
        → IsReachable pseudonym config threads
            (suc n)
            ts
            ((check_depth s, pseudonymise pseudonym s.config.subject_mode event) ∷ calls)
            s
    advanced :
        (n : ℕ) (ts : List (Command W)) (xs ys : List Call) (phase : Phase) (row : AuditRow)
        (s : Sink W)
        → IsReachable pseudonym config threads n ts (xs ++ (phase, row) ∷ ys) s
        → IsReachable pseudonym config threads n ts
            (xs ++ (staying (advance phase row s).1 row ++ ys))
            (advance phase row s).0
    sent :
        (n : ℕ) (ts : List (Command W)) (calls : List Call) (s : Sink W) (cmd : Command W)
        → count_audits (cmd ∷ []) ≡ 0
        → IsReachable pseudonym config threads n ts calls s
        → IsReachable pseudonym config threads n ts calls (send cmd s)
    pruned :
        (n : ℕ) (ts : List (Command W)) (calls : List Call) (s : Sink W) (now : Timestamp)
        → IsReachable pseudonym config threads n ts calls s
        → IsReachable pseudonym config threads n ts calls (prune_old now s)
    asked :
        (n : ℕ) (ts : List (Command W)) (calls : List Call) (s : Sink W) (key : ℕ) (now : Timestamp)
        → IsReachable pseudonym config threads n ts calls s
        → IsReachable pseudonym config threads n ts calls (should_record key now s).0
    taken :
        (n : ℕ) (ts : List (Command W)) (calls : List Call) (s : Sink W)
        (batch rest : List (Command W))
        → s.queue ≡ batch ++ rest
        → IsReachable pseudonym config threads n ts calls s
        → IsReachable pseudonym config threads n
            (ts ++ batch)
            calls
            (release batch (record s { queue = rest }))

  pub count_audits-append :
      (xs ys : List (Command W)) → count_audits (xs ++ ys) ≡ count_audits xs + count_audits ys
  unfolding count_audits
  count_audits-append [] ys = omega arith
  count_audits-append (audit row ∷ xs) ys = omega (arith, count_audits-append xs ys)
  count_audits-append (session c ∷ xs) ys = count_audits-append xs ys
  count_audits-append (insert_txn_row c ∷ xs) ys = count_audits-append xs ys
  count_audits-append (delete_expired c ∷ xs) ys = count_audits-append xs ys
  count_audits-append (custody c k ∷ xs) ys = count_audits-append xs ys
  count_audits-append (admin c r k ∷ xs) ys = count_audits-append xs ys
  count_audits-append (prune c ∷ xs) ys = count_audits-append xs ys
  count_audits-append (reap_rows c d ∷ xs) ys = count_audits-append xs ys
  count_audits-append (reseal ∷ xs) ys = count_audits-append xs ys
  count_audits-append (ping ∷ xs) ys = count_audits-append xs ys
  count_audits-append (shutdown ∷ xs) ys = count_audits-append xs ys

  pub events-append : (xs ys : List (Command W)) → events (xs ++ ys) ≡ events xs + events ys
  unfolding events
  events-append [] ys = omega arith
  events-append (audit row ∷ xs) ys = omega (arith, events-append xs ys)
  events-append (session c ∷ xs) ys = events-append xs ys
  events-append (insert_txn_row c ∷ xs) ys = events-append xs ys
  events-append (delete_expired c ∷ xs) ys = events-append xs ys
  events-append (custody c k ∷ xs) ys = events-append xs ys
  events-append (admin c r k ∷ xs) ys = events-append xs ys
  events-append (prune c ∷ xs) ys = events-append xs ys
  events-append (reap_rows c d ∷ xs) ys = events-append xs ys
  events-append (reseal ∷ xs) ys = events-append xs ys
  events-append (ping ∷ xs) ys = events-append xs ys
  events-append (shutdown ∷ xs) ys = events-append xs ys

  -- No audit command, no event.
  pub uncounted : (c : Command W) → count_audits (c ∷ []) ≡ 0 → events (c ∷ []) ≡ 0
  unfolding count_audits events
  uncounted (audit row) h = omega (arith, h)
  uncounted (session c) h = refl
  uncounted (insert_txn_row c) h = refl
  uncounted (delete_expired c) h = refl
  uncounted (custody c k) h = refl
  uncounted (admin c r k) h = refl
  uncounted (prune c) h = refl
  uncounted (reap_rows c d) h = refl
  uncounted reseal h = refl
  uncounted ping h = refl
  uncounted shutdown h = refl
