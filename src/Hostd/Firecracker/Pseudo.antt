-- ===== src/Hostd/Firecracker/Pseudo.antt =====
-- crates/hostd/src/pseudo_firecracker.rs: the stand-in that records its calls and fails when told to.
use sleepwalk.Prelude.{ℕ, true, false, ◌==◌, Option, none, some, List, [], ◌∷◌, ◌++◌}
use sleepwalk.Prelude.Results.{ok, err, Method}
use sleepwalk.Proto.Ids.{Text}
use sleepwalk.Hostd.Firecracker.{
  Op, FirecrackerError, rejected, unreachable, connecting, configure_machine, configure_boot_source,
  configure_drive, configure_vsock, configure_network, boot, pause, resume, shutdown,
  create_snapshot, load_snapshot,
}
use sleepwalk.Hostd.Vm.{Operation, FirecrackerApi}

pub data FailKind : Type 0 where
  fail_rejected fail_unreachable : FailKind

-- The state under the lock.
pub record PseudoFirecracker : Type 0 where
  pub calls : List Op
  pub fail_next : Option (Op × FailKind)

-- `PseudoFirecracker::new`
abbrev pub new_pseudo_firecracker : PseudoFirecracker
new_pseudo_firecracker = record { calls = []; fail_next = none }

-- `set_fail`, which `reject_next` and `unreachable_next` call.
abbrev pub set_fail : Op → FailKind → PseudoFirecracker → PseudoFirecracker
set_fail op kind p = record p { fail_next = some (op, kind) }

unfoldable pub reject_next : Op → PseudoFirecracker → PseudoFirecracker
reject_next op p = set_fail op fail_rejected p

unfoldable pub unreachable_next : Op → PseudoFirecracker → PseudoFirecracker
unreachable_next op p = set_fail op fail_unreachable p

abbrev index_of : Op → ℕ
index_of configure_machine = 0
index_of configure_boot_source = 1
index_of configure_drive = 2
index_of configure_vsock = 3
index_of configure_network = 4
index_of boot = 5
index_of pause = 6
index_of resume = 7
index_of shutdown = 8
index_of create_snapshot = 9
index_of load_snapshot = 10

-- "injected by PseudoFirecracker"
abbrev injected : Text
injected =
    105 ∷ 110 ∷ 106 ∷ 101 ∷ 99 ∷ 116 ∷ 101 ∷ 100 ∷ 32 ∷ 98 ∷ 121 ∷ 32 ∷ 80 ∷ 115 ∷ 101 ∷ 117 ∷ 100
    ∷ 111 ∷ 70 ∷ 105 ∷ 114 ∷ 101 ∷ 99 ∷ 114 ∷ 97 ∷ 99 ∷ 107 ∷ 101 ∷ 114 ∷ []

abbrev fault_for : Op → FailKind → FirecrackerError
fault_for op fail_rejected = rejected op injected
fault_for op fail_unreachable = unreachable op connecting injected

-- `PseudoFirecracker::record`; the detail of its unreachable error names no stage.
unfoldable pub record_call : Op → Method PseudoFirecracker FirecrackerError (Unit {0})
record_call op p =
    let called : PseudoFirecracker = record p { calls = p.calls ++ op ∷ [] } in
    elim p.fail_next [
      | none ↦ (ok tt, called)
      | some f ↦ elim (index_of f.0 == index_of op) [
        | true ↦ (err (fault_for op f.1), record called { fail_next = none })
        | false ↦ (ok tt, called)
      ]
    ]

abbrev lifecycle_op : Operation → Op
lifecycle_op Operation.boot = boot
lifecycle_op Operation.pause = pause
lifecycle_op Operation.resume = resume
lifecycle_op Operation.shutdown = shutdown

-- The methods that the lifecycle calls.
abbrev pub pseudo_api : FirecrackerApi
pseudo_api = record {
  Port = PseudoFirecracker;
  Error = FirecrackerError;
  issue = λ o p. record_call (lifecycle_op o) p;
}
