-- ===== src/Proto/Examples.antt =====
-- Hosts, releases and migrations to try the theorems on.
use sleepwalk.Prelude.{◌+◌, ℕ, ◌≡◌, refl, ◌↔◌, true, false, [], ◌∷◌, arith}
use sleepwalk.Proto.Wire.{from_millis, to_millis, from_millis-to_millis}
use sleepwalk.Proto.Ids.{Text, compare_text}
use sleepwalk.Proto.Compat.{CompatClass, compatible_with, kernel_tier, tsc_within_tolerance}
use sleepwalk.Proto.Compat.Classes.{WithinPpm, compatible_with_iff}
use sleepwalk.Proto.Fsm.{Phase, Migration, begin}
use sleepwalk.Proto.Fsm.Reach.{
  Calls, none_yet, then_call, drains, quiesces, snapshots, transfers, transferring_committed,
  ThroughQuiescent, commit_needs_quiescent,
}

abbrev one : Text
one = b'1' ∷ []

abbrev older : Text
older = b'6' ∷ b'.' ∷ b'1' ∷ b'.' ∷ b'4' ∷ b'2' ∷ []

abbrev newer : Text
newer = b'6' ∷ b'.' ∷ b'1' ∷ b'.' ∷ b'1' ∷ b'5' ∷ b'5' ∷ b'-' ∷ b'a' ∷ []

abbrev class_at : ℕ → Text → CompatClass
class_at khz kernel = record {
  vendor = b'A' ∷ [];
  model = b'Z' ∷ b'4' ∷ [];
  tsc_khz = khz;
  kernel = kernel;
}

-- Two hosts of one class with patched kernels, and a third whose clock is 251 ppm faster.
near_hosts : compatible_with (class_at 2400000 older) (class_at 2400600 newer) ≡ true
unfolding compatible_with tsc_within_tolerance kernel_tier compare_text
near_hosts = refl

far_hosts : compatible_with (class_at 2400000 older) (class_at 2400603 newer) ≡ false
unfolding compatible_with tsc_within_tolerance kernel_tier compare_text
far_hosts = refl

abbrev slow_host : CompatClass
slow_host = class_at 2400000 older

abbrev fast_host : CompatClass
fast_host = class_at 2400600 newer

compatible_with_iff_example :
    (compatible_with slow_host fast_host ≡ true)
    ↔ (slow_host.vendor ≡ fast_host.vendor)
      × (slow_host.model ≡ fast_host.model)
      × (kernel_tier slow_host.kernel ≡ kernel_tier fast_host.kernel)
      × WithinPpm slow_host.tsc_khz fast_host.tsc_khz
compatible_with_iff_example = compatible_with_iff slow_host fast_host (omega arith) (omega arith)

abbrev to_transfer : Calls Phase.intent Phase.transferring
to_transfer =
    then_call (then_call (then_call (then_call none_yet drains) quiesces) snapshots) transfers

abbrev some_move : Migration Phase.intent
some_move = begin (record { uuid = 7 }) (record { name = b'a' ∷ [] }) (record { name = b'b' ∷ [] })

commit_needs_quiescent_example : ThroughQuiescent to_transfer
commit_needs_quiescent_example = commit_needs_quiescent to_transfer transferring_committed

from_millis-to_millis_example : from_millis (to_millis (from_millis 250 + 999)) ≡ from_millis 250
from_millis-to_millis_example = from_millis-to_millis 250 999 (omega arith) (omega arith)
