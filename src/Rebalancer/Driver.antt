-- ===== src/Rebalancer/Driver.antt =====
-- crates/rebalancer/src/driver.rs: one migration from `intent` to `cleanup`, an effect of the
-- executor before each move of the state machine.
pub mod Calls
use sleepwalk.Prelude.{ℕ, ◌≡◌, Option, none, some, List, [], ◌∷◌}
use sleepwalk.Prelude.Results.{Result, ok, err, Method, pure, ◌>>=◌, ◌>>◌}
use sleepwalk.Proto.Ids.{VmId, HostId}
use sleepwalk.Proto.Fsm.{Phase, Migration, drain, quiesce, abort, clean_up, draining_abortable}
use sleepwalk.Proto.Fsm
use sleepwalk.Rebalancer.Executor.{DrainOutcome, quiescent, busy, ExecError, MigrationExecutor}

pub data AbortReason : Type 0 where
  not_quiescent : AbortReason

-- `MigrationOutcome`, which keeps the final value of the state machine that `drive` drops.
pub data MigrationOutcome : Type 0 where
  completed : Migration Phase.cleanup → MigrationOutcome
  aborted : AbortReason → Migration Phase.stable → MigrationOutcome

module _ (ex : MigrationExecutor) where
  abbrev Drive : Type 0
  Drive = Method ex.World ExecError MigrationOutcome

  -- The arm of `DrainOutcome::Busy`.
  unfoldable pub stand_down : Migration Phase.draining → Drive
  stand_down draining = do
    ex.cancel_drain draining.vm
    pure (aborted not_quiescent (abort draining_abortable draining))

  -- The arm of `DrainOutcome::Quiescent`.
  unfoldable pub relocate : VmId → HostId → HostId → Migration Phase.draining → Drive
  relocate vm to from draining = do
    ex.snapshot vm
    let snapshotting = Fsm.snapshot (quiesce draining)
    ex.transfer vm to
    let transferring = Fsm.transfer snapshotting
    ex.restore vm to
    let restoring = Fsm.restore transferring
    ex.cutover vm to
    let cut_over = Fsm.cutover restoring
    ex.cleanup vm from
    pure (completed (clean_up cut_over))

  unfoldable pub drive : Migration Phase.intent → ℕ → Drive
  unfolding stand_down relocate
  drive migration deadline = do
    let draining = drain migration
    outcome ← ex.request_drain migration.vm deadline
    elim outcome [
      | busy _ ↦ stand_down draining
      | quiescent ↦ relocate migration.vm migration.to migration.from draining
    ]
