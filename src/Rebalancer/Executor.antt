-- ===== src/Rebalancer/Executor.antt =====
-- crates/rebalancer/src/executor.rs and crates/rebalancer/src/pseudo_executor.rs: the effects of a
-- migration, as a record over the world `World` they act on, and the scripted executor. `recording`
-- is any executor with the list of its calls kept beside it, in the order they were made, each with
-- the error it returned, if it did.
use sleepwalk.Prelude.{ℕ, Bool, true, false, if◌then◌else◌, Option, none, some, List, [], ◌∷◌, ◌++◌}
use sleepwalk.Prelude.Results.{Result, ok, err, Method, gets, ◌>>=◌}
use sleepwalk.Proto.Ids.{Text, VmId, HostId, TurnId}

pub data DrainOutcome : Type 0 where
  quiescent : DrainOutcome
  busy : Option TurnId → DrainOutcome

-- The `op` of an `ExecError`.
pub data Op : Type 0 where
  request_drain_op cancel_drain_op snapshot_op transfer_op restore_op cutover_op cleanup_op : Op

pub record ExecError : Type 0 where
  pub op : Op
  pub vm : VmId
  pub detail : Text

pub record MigrationExecutor : Type 1 where
  pub World : Type 0
  pub request_drain : VmId → ℕ → Method World ExecError DrainOutcome
  pub cancel_drain : VmId → Method World ExecError (Unit {0})
  pub snapshot : VmId → Method World ExecError (Unit {0})
  pub transfer : VmId → HostId → Method World ExecError (Unit {0})
  pub restore : VmId → HostId → Method World ExecError (Unit {0})
  pub cutover : VmId → HostId → Method World ExecError (Unit {0})
  pub cleanup : VmId → HostId → Method World ExecError (Unit {0})

-- A call of an executor with its arguments.
pub data Effect : Type 0 where
  drain_requested : VmId → ℕ → Effect
  drain_cancelled snapshot_written : VmId → Effect
  snapshot_sent snapshot_restored authority_switched source_cleaned : VmId → HostId → Effect

-- A call and the error it ended with, if it did.
abbrev pub Entry : Type 0
Entry = Effect × Option ExecError

abbrev failure : {A : Type 0} → Result A ExecError → Option ExecError
failure (ok _) = none
failure (err e) = some e

abbrev logged : {W A : Type 0} → Effect → Method W ExecError A → Method (W × List Entry) ExecError A
logged e m (w, calls) = let (r, w') = m w in (r, (w', calls ++ (e, failure r) ∷ []))

abbrev pub recording : MigrationExecutor → MigrationExecutor
recording ex = record {
  World = ex.World × List Entry;
  request_drain = λ vm d. logged (drain_requested vm d) (ex.request_drain vm d);
  cancel_drain = λ vm. logged (drain_cancelled vm) (ex.cancel_drain vm);
  snapshot = λ vm. logged (snapshot_written vm) (ex.snapshot vm);
  transfer = λ vm to. logged (snapshot_sent vm to) (ex.transfer vm to);
  restore = λ vm to. logged (snapshot_restored vm to) (ex.restore vm to);
  cutover = λ vm to. logged (authority_switched vm to) (ex.cutover vm to);
  cleanup = λ vm from. logged (source_cleaned vm from) (ex.cleanup vm from);
}

-- The `State` of a `PseudoExecutor`.
pub record Script : Type 0 where
  pub calls : List Op
  pub drain : DrainOutcome
  pub fail : Option (Op × Text)

abbrev pub same_op : Op → Op → Bool
same_op request_drain_op request_drain_op = true
same_op cancel_drain_op cancel_drain_op = true
same_op snapshot_op snapshot_op = true
same_op transfer_op transfer_op = true
same_op restore_op restore_op = true
same_op cutover_op cutover_op = true
same_op cleanup_op cleanup_op = true
same_op _ _ = false

-- `PseudoExecutor::with_drain`
abbrev pub with_drain : DrainOutcome → Script
with_drain d = record { calls = []; drain = d; fail = none }

-- `PseudoExecutor::fail_on`
abbrev pub fail_on : Op → Text → Script → Script
fail_on op detail s = record s { fail = some (op, detail) }

-- `PseudoExecutor::record`
unfoldable pub record_op : Op → VmId → Method Script ExecError (Unit {0})
record_op op vm s =
    let s' = record s { calls = s.calls ++ op ∷ [] } in
    elim s.fail [
      | some (failed, detail) ↦
          if same_op failed op
          then (err (record { op = op; vm = vm; detail = detail }), record s' { fail = none })
          else (ok tt, s')
      | none ↦ (ok tt, s')
    ]

abbrev pub pseudo_executor : MigrationExecutor
pseudo_executor = record {
  World = Script;
  request_drain = λ vm d. record_op request_drain_op vm >>= λ _. gets λ s. s.drain;
  cancel_drain = λ vm. record_op cancel_drain_op vm;
  snapshot = λ vm. record_op snapshot_op vm;
  transfer = λ vm to. record_op transfer_op vm;
  restore = λ vm to. record_op restore_op vm;
  cutover = λ vm to. record_op cutover_op vm;
  cleanup = λ vm from. record_op cleanup_op vm;
}
