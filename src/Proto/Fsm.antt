-- ===== src/Proto/Fsm.antt =====
-- crates/proto/src/fsm.rs: the migration state machine. The typestate `Migration<S>` is a family
-- over the phases, and its methods are functions between members of the family, so that a call
-- out of order has no type here either; `intent` is `begin` and `quiescent` is `quiesce` and
-- `cleanup` is `clean_up`. The trait bound `Abortable` is the family `Abortable`.
pub mod Reach
use sleepwalk.Proto.Ids.{VmId, HostId}

pub data MigrationState : Type 0 where
  stable intent draining quiescent snapshotting transferring : MigrationState
  restoring cut_over cleanup aborted : MigrationState

-- The marker types of `mod state`.
pub data Phase : Type 0 where
  intent draining quiescent snapshotting transferring restoring cut_over cleanup stable : Phase

-- The constant `STATE` of each phase.
unfoldable pub state_of : Phase → MigrationState
state_of Phase.intent = MigrationState.intent
state_of Phase.draining = MigrationState.draining
state_of Phase.quiescent = MigrationState.quiescent
state_of Phase.snapshotting = MigrationState.snapshotting
state_of Phase.transferring = MigrationState.transferring
state_of Phase.restoring = MigrationState.restoring
state_of Phase.cut_over = MigrationState.cut_over
state_of Phase.cleanup = MigrationState.cleanup
state_of Phase.stable = MigrationState.aborted

-- The phases with an `impl Abortable`.
pub data Abortable : Phase → Type 0 where
  intent_abortable : Abortable Phase.intent
  draining_abortable : Abortable Phase.draining
  quiescent_abortable : Abortable Phase.quiescent

pub record Migration (s : Phase) : Type 0 where
  pub vm : VmId
  pub from : HostId
  pub to : HostId

-- `Migration::state`
unfoldable pub state : (s : Phase) → Migration s → MigrationState
unfolding state_of
state s m = state_of s

unfoldable pub advance : {s t : Phase} → Migration s → Migration t
advance m = record { vm = m.vm; from = m.from; to = m.to }

unfoldable pub begin : VmId → HostId → HostId → Migration Phase.intent
begin vm from to = record { vm = vm; from = from; to = to }

unfoldable pub drain : Migration Phase.intent → Migration Phase.draining
unfolding advance
drain m = advance m

unfoldable pub quiesce : Migration Phase.draining → Migration Phase.quiescent
unfolding advance
quiesce m = advance m

unfoldable pub snapshot : Migration Phase.quiescent → Migration Phase.snapshotting
unfolding advance
snapshot m = advance m

unfoldable pub transfer : Migration Phase.snapshotting → Migration Phase.transferring
unfolding advance
transfer m = advance m

unfoldable pub restore : Migration Phase.transferring → Migration Phase.restoring
unfolding advance
restore m = advance m

unfoldable pub cutover : Migration Phase.restoring → Migration Phase.cut_over
unfolding advance
cutover m = advance m

unfoldable pub clean_up : Migration Phase.cut_over → Migration Phase.cleanup
unfolding advance
clean_up m = advance m

unfoldable pub abort : {s : Phase} → Abortable s → Migration s → Migration Phase.stable
unfolding advance
abort a m = advance m
