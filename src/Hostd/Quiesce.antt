-- ===== src/Hostd/Quiesce.antt =====
-- crates/hostd/src/quiesce.rs: the layered quiescence detector. A CPU reading is a value of any
-- type `F` with a test `lt`, which stand for `f64` and its `<`; nothing is asked of them, and so
-- the readings that are no number are covered. Capacity hints are left out.
pub mod Window
use sleepwalk.Prelude.{
  ℕ, ◌≡◌, Bool, true, false, ◌&&◌, Option, none, some, List, [], ◌∷◌, ◌++◌, length, all, ltb, ◌==◌,
  if◌then◌else◌,
}
use sleepwalk.Proto.Ids.{TurnId}

pub record AppLayer : Type 0 where
  pub gated : Bool
  pub in_flight : Option TurnId

abbrev pub new_app : AppLayer
new_app = record { gated = false; in_flight = none }

abbrev pub turn_started : TurnId → AppLayer → AppLayer
turn_started t a = record a { in_flight = some t }

abbrev pub turn_ended : AppLayer → AppLayer
turn_ended a = record a { in_flight = none }

abbrev pub drain_acked : Option TurnId → AppLayer → AppLayer
drain_acked o a = record { gated = true; in_flight = o }

abbrev pub drain_cancelled : AppLayer → AppLayer
drain_cancelled a = record a { gated = false }

abbrev pub is_none {ℓ} : {A : Type ℓ} → Option A → Bool
is_none none = true
is_none (some a) = false

unfoldable pub app_is_quiet : AppLayer → Bool
app_is_quiet a = a.gated && is_none a.in_flight

pub record InfraThresholds (F : Type 0) : Type 0 where
  pub cpu_pct : F
  pub samples : ℕ

pub record InfraLayer (F : Type 0) : Type 0 where
  pub thresholds : InfraThresholds F
  pub recent : List F
  pub queues_quiet : Bool

-- `VecDeque::pop_front`
abbrev pub pop_front {ℓ} : {A : Type ℓ} → List A → List A
pop_front [] = []
pop_front (x ∷ xs) = xs

module _ {F : Type 0} where
  abbrev pub new_infra : InfraThresholds F → InfraLayer F
  new_infra th = record { thresholds = th; recent = []; queues_quiet = false }

  -- `InfraLayer::record`
  unfoldable pub record_sample : F → Bool → InfraLayer F → InfraLayer F
  record_sample cpu quiet l =
      let kept = if length l.recent == l.thresholds.samples then pop_front l.recent else l.recent in
      record l { recent = kept ++ cpu ∷ []; queues_quiet = quiet }

  -- `InfraLayer::is_quiet`
  unfoldable pub infra_is_quiet : (F → F → Bool) → InfraLayer F → Bool
  infra_is_quiet lt l =
      ltb 0 l.thresholds.samples
      && length l.recent == l.thresholds.samples
      && l.queues_quiet
      && all (λ c. lt c l.thresholds.cpu_pct) l.recent

pub record StorageLayer : Type 0 where
  pub caught_up : Bool

abbrev pub new_storage : StorageLayer
new_storage = record { caught_up = false }

abbrev pub set_caught_up : Bool → StorageLayer → StorageLayer
set_caught_up b s = record { caught_up = b }

abbrev pub storage_is_quiet : StorageLayer → Bool
storage_is_quiet s = s.caught_up

pub record QuiescenceReport : Type 0 where
  pub app : Bool
  pub infra : Bool
  pub storage : Bool

unfoldable pub report_is_quiescent : QuiescenceReport → Bool
report_is_quiescent r = r.app && r.infra && r.storage

pub record QuiescenceDetector (F : Type 0) : Type 0 where
  pub app : AppLayer
  pub infra : InfraLayer F
  pub storage : StorageLayer

module _ {F : Type 0} where
  -- `QuiescenceDetector::new`
  unfoldable pub new_detector : InfraThresholds F → QuiescenceDetector F
  new_detector th = record { app = new_app; infra = new_infra th; storage = new_storage }

  -- `QuiescenceDetector::report`
  unfoldable pub report : (F → F → Bool) → QuiescenceDetector F → QuiescenceReport
  report lt d = record {
    app = app_is_quiet d.app;
    infra = infra_is_quiet lt d.infra;
    storage = storage_is_quiet d.storage;
  }

  -- `QuiescenceDetector::is_quiescent`
  unfoldable pub is_quiescent : (F → F → Bool) → QuiescenceDetector F → Bool
  unfolding report report_is_quiescent
  is_quiescent lt d = report_is_quiescent (report lt d)
