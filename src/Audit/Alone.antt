-- ===== src/Audit/Alone.antt =====
-- audit.rs, `record`: its atomic steps, uninterrupted, come to the call as a whole.
use session_broker.Base.{
  ℕ, zero, suc, ◌≡◌, refl, true, false, none, some, ltb, leb, Bool, inl, inr, Bool-cases,
  if◌then◌else◌,
}
use session_broker.Store.Rows.{AuditRow}
use session_broker.Audit.Sink.{
  Sink, Phase, refused, passed, announcing, entering, gap_row, check_depth, advance, enqueue, send,
  drop_row, announce_gap, record_event, pseudonymise,
}

module _ {W : Type 0} where
  -- At most so many steps of a call that no other call interrupts.
  unfoldable run_alone : ℕ → Phase → AuditRow → Sink W → Sink W
  unfolding advance
  run_alone zero phase row s = s
  run_alone (suc fuel) phase row s = elim (advance phase row s).1 [
    | none ↦ (advance phase row s).0
    | some next ↦ run_alone fuel next row (advance phase row s).0
  ]

  after_swap_lem :
      (b : Bool) (dropped : ℕ) (row : AuditRow) (s : Sink W)
      → run_alone 4 (if b then announcing dropped else entering) row s
        ≡ enqueue row (if b then enqueue (gap_row dropped row.at) s else s)
  unfolding run_alone advance enqueue send
  after_swap_lem true dropped row s = refl
  after_swap_lem false dropped row s = refl

  passed_lem :
      (row : AuditRow) (s : Sink W) → run_alone 5 passed row s ≡ enqueue row (announce_gap row.at s)
  unfolding run_alone advance announce_gap
  passed_lem row s =
      after_swap_lem (ltb 0 s.pending_gap) s.pending_gap row (record s { pending_gap = 0 })

  refused_lem : (row : AuditRow) (s : Sink W) → run_alone 5 refused row s ≡ drop_row s
  unfolding run_alone advance
  refused_lem row s = refl

  -- A call returns after five steps at most, and has then done what `record_event` does.
  record_event-run_alone :
      (pseudonym : ℕ → ℕ) (event : AuditRow) (s : Sink W)
      → run_alone 5 (check_depth s) (pseudonymise pseudonym s.config.subject_mode event) s
        ≡ record_event pseudonym event s
  unfolding check_depth record_event
  record_event-run_alone pseudonym event s =
      elim (Bool-cases (leb s.config.queue_capacity s.depth)) [
        | inl full ↦ rw full (refused_lem (pseudonymise pseudonym s.config.subject_mode event) s)
        | inr room ↦ rw room (passed_lem (pseudonymise pseudonym s.config.subject_mode event) s)
      ]
