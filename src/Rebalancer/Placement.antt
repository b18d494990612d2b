-- ===== src/Rebalancer/Placement.antt =====
-- crates/rebalancer/src/placement.rs: where the VMs live, and the move that relieves the hottest
-- host. `f64` is a parameter: the interface `Float` has the operations that the code calls, and
-- `FloatLaws` what their documentation promises. A duration is its number of nanoseconds.
pub mod Choice
pub mod Existence
use Prim.Native.Nat.{compare, Ordering}
use sleepwalk.Prelude.{
  ℕ, ◌≡◌, Bool, true, false, not, ◌&&◌, Option, none, some, List, [], ◌∷◌, ◌++◌, map, filter_by,
  if◌then◌else◌,
}
use sleepwalk.Prelude.Order.{Cmp, IsOrder, Le, by_key, reversed, both, max_by, min_by}
use sleepwalk.Prelude.BTreeMap.{BTreeMap, get, insert}
use sleepwalk.Proto.Ids.{VmId, HostId, compare_vm, compare_host, vm_ord, host_ord}
use sleepwalk.Proto.Compat.{CompatClass, compatible_with}

pub record Float : Type 1 where
  pub F : Type 0
  pub zero : F
  pub is_finite : F → Bool
  pub clamp_unit : F → F  -- `clamp(0.0, 1.0)`
  pub total_cmp : Cmp F
  pub le : F → F → Bool  -- `<=`

-- `total_cmp` is a total order; `<=` is transitive, and on finite values holds wherever `total_cmp`
-- does not say greater; zero is finite, and so is a clamped finite value.
pub record FloatLaws (fl : Float) : Type 0 where
  pub total : IsOrder fl.total_cmp
  pub le_trans : (a b c : fl.F) → fl.le a b ≡ true → fl.le b c ≡ true → fl.le a c ≡ true
  pub le_of_total :
      (a b : fl.F)
      → fl.is_finite a ≡ true
      → fl.is_finite b ≡ true
      → Le fl.total_cmp a b
      → fl.le a b ≡ true
  pub zero_finite : fl.is_finite fl.zero ≡ true
  pub clamp_finite : (a : fl.F) → fl.is_finite a ≡ true → fl.is_finite (fl.clamp_unit a) ≡ true

pub record Rebalance : Type 0 where
  pub vm : VmId
  pub from : HostId
  pub to : HostId

abbrev pub Placement : Type 0
Placement = BTreeMap HostId (List VmId)

abbrev pub or_empty {ℓ} : {A : Type ℓ} → Option (List A) → List A
or_empty none = []
or_empty (some xs) = xs

-- `Placement::assign`
unfoldable pub assign : HostId → VmId → Placement → Placement
assign host vm p = insert host (or_empty (get host p) ++ vm ∷ []) p

-- `Placement::vms_on`
unfoldable pub vms_on : Placement → HostId → List VmId
vms_on p host = or_empty (get host p)

infixl 5 ◌>>=◌
abbrev pub ◌>>=◌ : {A B : Type 0} → Option A → (A → Option B) → Option B
none >>= f = none
some a >>= f = f a

abbrev pub or_zero : Option ℕ → ℕ
or_zero none = 0
or_zero (some n) = n

-- An idle gap; a VM with no reading counts as idle 0.
abbrev pub idle_of : BTreeMap VmId ℕ → VmId → ℕ
idle_of idle v = or_zero (get v idle)

-- The order in which `most_idle_vm` takes the greatest: by idle gap, then the lower id.
abbrev pub by_idleness : BTreeMap VmId ℕ → Cmp VmId
by_idleness idle = both (by_key (idle_of idle) compare) (reversed compare_vm)

unfoldable pub most_idle_vm : List VmId → BTreeMap VmId ℕ → Option VmId
most_idle_vm vms idle = max_by (by_idleness idle) vms

-- `h != except`
abbrev pub differs : HostId → HostId → Bool
differs g h = elim (compare_host g h) [ Ordering.eq ↦ false | _ ↦ true ]

-- The closure of the second filter of `coolest_compatible_host`.
abbrev pub class_accepts : CompatClass → Option CompatClass → Bool
class_accepts source none = false
class_accepts source (some target) = compatible_with source target

module _ (fl : Float) where
  pub record Pressure : Type 0 where
    pub reading : fl.F

  -- `Pressure::new`
  unfoldable pub new_pressure : fl.F → Pressure
  new_pressure v = record { reading = if fl.is_finite v then fl.clamp_unit v else fl.zero }

  abbrev pub Entry : Type 0
  Entry = HostId × Pressure

  -- Hotter, and on a tie the lower id, is greater.
  abbrev pub by_heat : Cmp Entry
  by_heat =
      both (by_key (λ e. e.1.reading) fl.total_cmp) (reversed (by_key (λ e. e.0) compare_host))

  -- Cooler, and on a tie the lower id, is less.
  abbrev pub by_coolness : Cmp Entry
  by_coolness = both (by_key (λ e. e.1.reading) fl.total_cmp) (by_key (λ e. e.0) compare_host)

  abbrev pub host_of : Option Entry → Option HostId
  host_of none = none
  host_of (some e) = some e.0

  unfoldable pub hottest_host : BTreeMap HostId Pressure → Option HostId
  hottest_host pressure = host_of (max_by by_heat pressure)

  -- The two filters of `coolest_compatible_host`.
  abbrev pub candidates :
      BTreeMap HostId Pressure → HostId → CompatClass → BTreeMap HostId CompatClass → List Entry
  candidates pressure except source compat =
      filter_by (λ e. class_accepts source (get e.0 compat))
        (filter_by (λ e. differs e.0 except) pressure)

  unfoldable pub coolest_compatible_host :
      BTreeMap HostId Pressure → HostId → CompatClass → BTreeMap HostId CompatClass → Option HostId
  coolest_compatible_host pressure except source compat =
      host_of (min_by by_coolness (candidates pressure except source compat))

  abbrev pub or_unread : Option Pressure → fl.F
  or_unread none = fl.zero
  or_unread (some p) = p.reading

  unfoldable pub pressure_of : BTreeMap HostId Pressure → HostId → fl.F
  pressure_of pressure host = or_unread (get host pressure)

  -- `pick_victim`
  unfoldable pub pick_victim :
      Placement
      → BTreeMap HostId Pressure
      → BTreeMap VmId ℕ
      → Pressure
      → BTreeMap HostId CompatClass
      → Option Rebalance
  pick_victim placement pressure idle high_watermark compat = do
    hottest ← hottest_host pressure
    if fl.le (pressure_of pressure hottest) high_watermark.reading then none else do
      source_class ← get hottest compat
      coolest ← coolest_compatible_host pressure hottest source_class compat
      if fl.le (pressure_of pressure hottest) (pressure_of pressure coolest) then none else do
        vm ← most_idle_vm (vms_on placement hottest) idle
        some (record { vm = vm; from = hottest; to = coolest })
