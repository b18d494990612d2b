-- ===== src/Hostd/Drain.antt =====
-- crates/hostd/src/drain.rs: the coordinator that folds the signals of one drain into a verdict.
pub mod Verdict
use sleepwalk.Prelude.{Bool, Option, List, [], ◌∷◌, if◌then◌else◌}
use sleepwalk.Proto.Ids.{TurnId}
use sleepwalk.Proto.Vsock.{
  GuestToHost, hello, turn_started, turn_ended, drain_ack, resumed, ping, pong,
}
use sleepwalk.Hostd.Quiesce.{
  InfraThresholds, QuiescenceDetector, QuiescenceReport, new_detector, report, is_quiescent,
  drain_acked, record_sample, set_caught_up,
}
use sleepwalk.Hostd.Quiesce

pub data DrainVerdict : Type 0 where
  quiescent : DrainVerdict
  busy : Option TurnId → DrainVerdict

module _ {F : Type 0} where
  -- `DrainCoordinator` is its one field, the detector.
  abbrev pub new_coordinator : InfraThresholds F → QuiescenceDetector F
  new_coordinator = new_detector

  unfoldable pub observe_guest : GuestToHost → QuiescenceDetector F → QuiescenceDetector F
  observe_guest (turn_started t now) d = record d { app = Quiesce.turn_started t d.app }
  observe_guest (turn_ended t now) d = record d { app = Quiesce.turn_ended d.app }
  observe_guest (drain_ack o) d = record d { app = drain_acked o d.app }
  observe_guest (hello vm version) d = d
  observe_guest (resumed now) d = d
  observe_guest ping d = d
  observe_guest pong d = d

  unfoldable pub observe_infra : F → Bool → QuiescenceDetector F → QuiescenceDetector F
  observe_infra cpu quiet d = record d { infra = record_sample cpu quiet d.infra }

  unfoldable pub observe_storage : Bool → QuiescenceDetector F → QuiescenceDetector F
  observe_storage b d = record d { storage = set_caught_up b d.storage }

  unfoldable pub verdict : (F → F → Bool) → QuiescenceDetector F → DrainVerdict
  verdict lt d = if is_quiescent lt d then quiescent else busy d.app.in_flight
