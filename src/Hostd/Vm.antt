-- ===== src/Hostd/Vm.antt =====
-- crates/hostd/src/vm.rs: the lifecycle of one VM over the control port `FirecrackerApi`, the trait
-- of crates/hostd/src/firecracker.rs, of which only the calls made here are named.
pub mod Lifecycle
use sleepwalk.Prelude.{Bool, true, false, not, ◌||◌}
use sleepwalk.Prelude.Results.{
  Result, ok, err, map_err, Method, pure, fail, gets, modify, fail_if, ◌>>=◌, ◌>>◌,
}
use sleepwalk.Proto.Ids.{VmId}

pub data RunState : Type 0 where
  created running paused stopped : RunState

pub data Operation : Type 0 where
  boot pause resume shutdown : Operation

pub record FirecrackerApi : Type 1 where
  pub Port : Type 0
  pub Error : Type 0
  pub issue : Operation → Port → Result (Unit {0}) Error × Port

-- The `op` of an error is the name of the method.
pub data LifecycleError (E : Type 0) : Type 0 where
  illegal_transition : RunState → Operation → LifecycleError E
  firecracker : E → LifecycleError E

pub record Vm (F : Type 0) : Type 0 where
  pub id : VmId
  pub fc : F
  pub state : RunState

-- `self.state == want`
abbrev same_state : RunState → RunState → Bool
same_state created created = true
same_state running running = true
same_state paused paused = true
same_state stopped stopped = true
same_state _ _ = false

module _ (api : FirecrackerApi) where
  abbrev Op : Type 0
  Op = Method (Vm api.Port) (LifecycleError api.Error) (Unit {0})

  -- `Vm::new`
  abbrev pub new : VmId → api.Port → Vm api.Port
  new id fc = record { id = id; fc = fc; state = created }

  -- `Vm::require`
  require : RunState → Operation → Op
  require want op = do
    s ← gets λ v. v.state
    fail_if (not (same_state s want)) (illegal_transition s op)

  abbrev issue : Operation → Op
  issue op v = let (r, fc) = api.issue op v.fc in (map_err firecracker r, record v { fc = fc })

  abbrev enter : RunState → Op
  enter s = modify λ v. record v { state = s }

  unfoldable pub boot_vm : Op
  unfolding require
  boot_vm = do require created boot; issue boot; enter running

  unfoldable pub pause_vm : Op
  unfolding require
  pause_vm = do require running pause; issue pause; enter paused

  unfoldable pub resume_vm : Op
  unfolding require
  resume_vm = do require paused resume; issue resume; enter running

  unfoldable pub shutdown_vm : Op
  shutdown_vm = do
    s ← gets λ v. v.state
    fail_if (not (same_state s running || same_state s paused)) (illegal_transition s shutdown)
    issue shutdown
    enter stopped
