-- ===== src/Hostd/Vm/Lifecycle.antt =====
-- The lifecycle as a diagram, and what each method promises on every outcome.
use sleepwalk.Prelude.{◌≡◌, refl, ◌≢◌, Option, none, some, arith}
use sleepwalk.Prelude.Results.{Result, ok, err}
use sleepwalk.Hostd.Vm.{
  RunState, created, running, paused, stopped, Operation, boot, pause, resume, shutdown,
  FirecrackerApi, LifecycleError, illegal_transition, firecracker, Vm, boot_vm, pause_vm, resume_vm,
  shutdown_vm,
}

-- The diagram: where an operation leads from a state, if it is legal there.
abbrev pub target : RunState → Operation → Option RunState
target created boot = some running
target running pause = some paused
target paused resume = some running
target running shutdown = some stopped
target paused shutdown = some stopped
target _ _ = none

module _ (api : FirecrackerApi) where
  pub perform : Operation → Vm api.Port → Result (Unit {0}) (LifecycleError api.Error) × Vm api.Port
  perform boot = boot_vm api
  perform pause = pause_vm api
  perform resume = resume_vm api
  perform shutdown = shutdown_vm api

  -- What a method has done, by how it ended.
  abbrev pub Outcome :
      Operation → Vm api.Port → Result (Unit {0}) (LifecycleError api.Error) × Vm api.Port → Type 0
  Outcome op v (ok _, v') =
      (target v.state op ≡ some v'.state) × (api.issue op v.fc ≡ (ok tt, v'.fc)) × (v'.id ≡ v.id)
  Outcome op v (err (illegal_transition from o), v') =
      (target v.state op ≡ none) × (v' ≡ v) × (from ≡ v.state) × (o ≡ op)
  Outcome op v (err (firecracker e), v') =
      (target v.state op ≢ none)
      × (api.issue op v.fc ≡ (err e, v'.fc))
      × (v'.state ≡ v.state)
      × (v'.id ≡ v.id)

  Outcome-from :
      (op : Operation) (s : RunState) (v : Vm api.Port) → v.state ≡ s → Outcome op v (perform op v)
  unfolding perform boot_vm pause_vm resume_vm shutdown_vm
  Outcome-from boot created v e = ground arith
  Outcome-from boot _ v e = ground arith
  Outcome-from pause running v e = ground arith
  Outcome-from pause _ v e = ground arith
  Outcome-from resume paused v e = ground arith
  Outcome-from resume _ v e = ground arith
  Outcome-from shutdown running v e = ground arith
  Outcome-from shutdown _ v e = ground arith

  -- Every method, from every state and with every answer of Firecracker, has done one of three
  -- things: made the move of the diagram after Firecracker agreed; refused an operation that the
  -- diagram has no move for, with the VM and its control port untouched; or tried a legal move
  -- that Firecracker failed, and left the state as it was.
  pub perform-Outcome : (op : Operation) (v : Vm api.Port) → Outcome op v (perform op v)
  perform-Outcome op v = Outcome-from op v.state v refl
