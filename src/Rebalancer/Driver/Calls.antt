-- ===== src/Rebalancer/Driver/Calls.antt =====
-- The calls that a driven migration makes, and what its outcome says of them.
use sleepwalk.Prelude.{
  ℕ, zero, suc, ◌≤◌, ◌⊎◌, inr, ◌≡◌, refl, Option, none, some, List, [], ◌∷◌, arith, take,
}
use sleepwalk.Prelude.Results.{Result, ok, err, Method, pure, ◌>>◌, bind_cases}
use sleepwalk.Proto.Ids.{TurnId}
use sleepwalk.Proto.Fsm.{
  Phase, Migration, drain, quiesce, abort, clean_up, draining_abortable, advance,
}
use sleepwalk.Proto.Fsm
use sleepwalk.Rebalancer.Executor.{
  DrainOutcome, quiescent, busy, ExecError, Entry, MigrationExecutor, Effect, drain_requested,
  drain_cancelled, snapshot_written, snapshot_sent, snapshot_restored, authority_switched,
  source_cleaned, recording,
}
use sleepwalk.Rebalancer.Driver.{
  not_quiescent, MigrationOutcome, completed, aborted, drive, relocate, stand_down,
}

-- Entries of calls that all succeed.
abbrev pub all_succeed : List Effect → List Entry
all_succeed [] = []
all_succeed (c ∷ cs) = (c, none) ∷ all_succeed cs

-- Entries of the calls up to the one at position `n`, which fails.
abbrev pub fails_at : ℕ → ExecError → List Effect → List Entry
fails_at n e [] = []
fails_at zero e (c ∷ cs) = (c, some e) ∷ []
fails_at (suc n) e (c ∷ cs) = (c, none) ∷ fails_at n e cs

module _ (m : Migration Phase.intent) (deadline : ℕ) where
  -- The calls of a migration that goes through.
  abbrev pub full_plan : List Effect
  full_plan =
      drain_requested m.vm deadline
      ∷ snapshot_written m.vm
      ∷ snapshot_sent m.vm m.to
      ∷ snapshot_restored m.vm m.to
      ∷ authority_switched m.vm m.to
      ∷ source_cleaned m.vm m.from
      ∷ []

  -- The calls of a migration that stands down.
  abbrev pub short_plan : List Effect
  short_plan = drain_requested m.vm deadline ∷ drain_cancelled m.vm ∷ []

  module _ (ex : MigrationExecutor) (w : ex.World) where
    -- How a migration ended and what it called. One that completed called the whole plan. One that
    -- stood down had a busy answer. One that failed with `e` called a prefix of one of the plans,
    -- and `e` is what the last of these calls returned.
    abbrev pub Ended : Result MigrationOutcome ExecError × (ex.World × List Entry) → Type 0
    Ended (ok (completed end), (_, calls)) =
        ((ex.request_drain m.vm deadline w).0 ≡ ok quiescent)
        × (calls ≡ all_succeed full_plan)
        × (end.vm ≡ m.vm)
        × (end.from ≡ m.from)
        × (end.to ≡ m.to)
    Ended (ok (aborted _ end), (_, calls)) =
        ((t : Option TurnId) × ((ex.request_drain m.vm deadline w).0 ≡ ok (busy t)))
        × (calls ≡ all_succeed short_plan)
        × (end.vm ≡ m.vm)
        × (end.from ≡ m.from)
        × (end.to ≡ m.to)
    Ended (err e, (_, calls)) =
        (calls ≡ fails_at 0 e short_plan)
        ⊎ (calls ≡ fails_at 1 e short_plan)
        ⊎ ((ex.request_drain m.vm deadline w).0 ≡ ok quiescent)
          × ((n : ℕ) × (1 ≤ n) × (n ≤ 5) × (calls ≡ fails_at n e full_plan))

    -- The world and the log after a drain that was answered.
    abbrev drained : ex.World → ex.World × List Entry
    drained w1 = (w1, (drain_requested m.vm deadline, none) ∷ [])

    abbrev rec : MigrationExecutor
    rec = recording ex

    abbrev Rest : Type 0
    Rest = Method (ex.World × List Entry) ExecError MigrationOutcome

    -- What is left of `relocate` before each effect.
    abbrev from_cleanup : Rest
    from_cleanup =
        rec.cleanup m.vm m.from
        >> pure (
            completed (
              clean_up
                (Fsm.cutover (Fsm.restore (Fsm.transfer (Fsm.snapshot (quiesce (drain m))))))))

    abbrev from_cutover : Rest
    from_cutover = rec.cutover m.vm m.to >> from_cleanup

    abbrev from_restore : Rest
    from_restore = rec.restore m.vm m.to >> from_cutover

    abbrev from_transfer : Rest
    from_transfer = rec.transfer m.vm m.to >> from_restore

    abbrev from_snapshot : Rest
    from_snapshot = rec.snapshot m.vm >> from_transfer

    -- The log after the first `n` calls of the full plan, none of which failed.
    abbrev Reached : ℕ → Rest → Type 0
    Reached n rest =
        (w1 : ex.World) (log : List Entry)
        → (ex.request_drain m.vm deadline w).0 ≡ ok quiescent
        → log ≡ all_succeed (take n full_plan)
        → Ended (rest (w1, log))

    cleanup-Ended : Reached 5 from_cleanup
    unfolding drain quiesce Fsm.snapshot Fsm.transfer Fsm.restore Fsm.cutover clean_up advance
    cleanup-Ended w1 log q l =
        bind_cases Ended (rec.cleanup m.vm m.from)
          (λ _. pure (
            completed (
              clean_up
                (Fsm.cutover (Fsm.restore (Fsm.transfer (Fsm.snapshot (quiesce (drain m)))))))))
          (w1, log) (λ x h. ground arith)
          (λ e h. inr (inr (q, (5, ground arith, ground arith, ground arith))))

    cutover-Ended : Reached 4 from_cutover
    cutover-Ended w1 log q l =
        bind_cases Ended (rec.cutover m.vm m.to) (λ _. from_cleanup) (w1, log)
          (λ x h.
            cleanup-Ended (rec.cutover m.vm m.to (w1, log)).1.0
              (rec.cutover m.vm m.to (w1, log)).1.1 q (ground arith))
          (λ e h. inr (inr (q, (4, ground arith, ground arith, ground arith))))

    restore-Ended : Reached 3 from_restore
    restore-Ended w1 log q l =
        bind_cases Ended (rec.restore m.vm m.to) (λ _. from_cutover) (w1, log)
          (λ x h.
            cutover-Ended (rec.restore m.vm m.to (w1, log)).1.0
              (rec.restore m.vm m.to (w1, log)).1.1 q (ground arith))
          (λ e h. inr (inr (q, (3, ground arith, ground arith, ground arith))))

    transfer-Ended : Reached 2 from_transfer
    transfer-Ended w1 log q l =
        bind_cases Ended (rec.transfer m.vm m.to) (λ _. from_restore) (w1, log)
          (λ x h.
            restore-Ended (rec.transfer m.vm m.to (w1, log)).1.0
              (rec.transfer m.vm m.to (w1, log)).1.1 q (ground arith))
          (λ e h. inr (inr (q, (2, ground arith, ground arith, ground arith))))

    snapshot-Ended : Reached 1 from_snapshot
    snapshot-Ended w1 log q l =
        bind_cases Ended (rec.snapshot m.vm) (λ _. from_transfer) (w1, log)
          (λ x h.
            transfer-Ended (rec.snapshot m.vm (w1, log)).1.0 (rec.snapshot m.vm (w1, log)).1.1 q
              (ground arith))
          (λ e h. inr (inr (q, (1, ground arith, ground arith, ground arith))))

    stand_down-Ended :
        (t : Option TurnId) (w1 : ex.World)
        → (ex.request_drain m.vm deadline w).0 ≡ ok (busy t)
        → Ended
            (stand_down (recording ex) (drain m) (w1, (drain_requested m.vm deadline, none) ∷ []))
    unfolding stand_down drain abort advance
    stand_down-Ended t w1 q =
        bind_cases Ended ((recording ex).cancel_drain m.vm)
          (λ _. pure (aborted not_quiescent (abort draining_abortable (drain m))))
          (w1, (drain_requested m.vm deadline, none) ∷ []) (λ x h. ground arith)
          (λ x h. ground arith)

    drive_from :
        (r : Result DrainOutcome ExecError)
        → (ex.request_drain m.vm deadline w).0 ≡ r
        → Ended (drive (recording ex) m deadline (w, []))
    unfolding drive relocate
    drive_from (err e) q = ground arith
    drive_from (ok (busy t)) q =
        ground (arith, stand_down-Ended t (ex.request_drain m.vm deadline w).1)
    drive_from (ok quiescent) q = ground (
      arith,
      snapshot-Ended (ex.request_drain m.vm deadline w).1
          ((drain_requested m.vm deadline, none) ∷ []) q refl,
    )

    -- A driven migration calls the whole plan, in order and with every call succeeding, if it
    -- completes; it asks for a drain and cancels it, and nothing else, if it stands down; and it ends
    -- with an error exactly where a call returned it, after a prefix of one of the plans. It completes
    -- or fails past the drain only if the drain answered `quiescent`, stands down only if it answered
    -- `busy`, and stays about the same VM and hosts.
    pub drive-Ended : Ended (drive (recording ex) m deadline (w, []))
    drive-Ended = drive_from (ex.request_drain m.vm deadline w).0 refl
