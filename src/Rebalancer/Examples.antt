-- ===== src/Rebalancer/Examples.antt =====
-- Two hosts, one of them hot, and scripted executors and daemons.
use Prim.Native.Nat.{compare, min}
use sleepwalk.Prelude.{
  ℕ, ◌+◌, ◌≡◌, refl, ◌↔◌, ◌≢◌, inl, inr, true, none, some, [], ◌∷◌, In, All, arith, leb,
}
use sleepwalk.Prelude.Results.{ok}
use sleepwalk.Prelude.Order.{IsMax, compare-IsOrder, max_by, min_by}
use sleepwalk.Prelude.BTreeMap.{BTreeMap, get, IsAscending}
use sleepwalk.Proto.Ids.{VmId, HostId, host_ord, vm_ord, compare_text}
use sleepwalk.Proto.Compat.{CompatClass, compatible_with, tsc_within_tolerance, kernel_tier}
use sleepwalk.Proto.Fsm.{Phase, Migration, begin}
use sleepwalk.Rebalancer.Placement.{
  Float, FloatLaws, Rebalance, Placement, Pressure, by_heat, vms_on, pick_victim, hottest_host,
  pressure_of, coolest_compatible_host, most_idle_vm,
}
use sleepwalk.Rebalancer.Placement.Choice.{GoodMove}
use sleepwalk.Rebalancer.Placement.Existence.{pick_victim-eq-some_iff, pick_victim_without_evidence}
use sleepwalk.Rebalancer.Executor.{
  MigrationExecutor, quiescent, transfer_op, Script, with_drain, fail_on, pseudo_executor,
  recording,
}
use sleepwalk.Rebalancer.Driver.{drive}
use sleepwalk.Rebalancer.Driver.Calls.{Ended, drive-Ended}
use sleepwalk.Rebalancer.Control.{
  Fleet, HostEndpoint, empty_fleet, add, pseudo_daemon, send_op, PseudoDaemon, rebalance_once,
}
use sleepwalk.Rebalancer.Control.Steps.{Stepped, recording_daemon, rebalance_once-Stepped}

-- Readings in percent.
abbrev percent : Float
percent = record {
  F = ℕ;
  zero = 0;
  is_finite = λ x. true;
  clamp_unit = λ x. min x 100;
  total_cmp = compare;
  le = leb;
}

percent_le_trans : (a b c : ℕ) → leb a b ≡ true → leb b c ≡ true → leb a c ≡ true
percent_le_trans a b c p q = ground arith

percent_laws : FloatLaws percent
percent_laws = record {
  total = compare-IsOrder;
  le_trans = percent_le_trans;
  le_of_total = λ a b p q l. ground arith;
  zero_finite = refl;
  clamp_finite = λ a p. refl;
}

abbrev host_a : HostId
host_a = record { name = b'a' ∷ [] }

abbrev host_b : HostId
host_b = record { name = b'b' ∷ [] }

abbrev vm_of : ℕ → VmId
vm_of n = record { uuid = n }

abbrev at_percent : ℕ → Pressure percent
at_percent n = record { reading = n }

abbrev readings : BTreeMap HostId (Pressure percent)
readings = (host_a, at_percent 90) ∷ (host_b, at_percent 20) ∷ []

abbrev placement : Placement
placement = (host_a, vm_of 1 ∷ vm_of 2 ∷ []) ∷ []

abbrev idle_gaps : BTreeMap VmId ℕ
idle_gaps = (vm_of 2, 5) ∷ []

abbrev class : CompatClass
class = record { vendor = []; model = []; tsc_khz = 2400000; kernel = b'6' ∷ b'.' ∷ b'1' ∷ [] }

abbrev classes : BTreeMap HostId CompatClass
classes = (host_a, class) ∷ (host_b, class) ∷ []

readings-IsAscending : IsAscending readings
unfolding compare_text
readings-IsAscending = ((refl, tt), (tt, tt))

abbrev best_move : Rebalance
best_move = record { vm = vm_of 2; from = host_a; to = host_b }

pick_victim-eq-some_iff_example :
    (pick_victim percent placement readings idle_gaps (at_percent 80) classes ≡ some best_move)
    ↔ GoodMove percent placement readings idle_gaps (at_percent 80) classes best_move
pick_victim-eq-some_iff_example =
    pick_victim-eq-some_iff percent percent_laws placement readings idle_gaps (at_percent 80)
      classes readings-IsAscending best_move

host_a_hottest : IsMax (by_heat percent) readings (host_a, at_percent 90)
unfolding compare_text
host_a_hottest = record {
  member = inl refl;
  upper = λ e i. elim i [ inl p ↦ ground arith | inr j ↦ ground arith ];
}

known_class : get host_a classes ≡ some class
unfolding get compare_text
known_class = refl

known_target : get host_b classes ≡ some class
unfolding get compare_text
known_target = refl

same_class : compatible_with class class ≡ true
unfolding compatible_with tsc_within_tolerance kernel_tier compare_text
same_class = refl

vm_on_a : In (vm_of 1) (vms_on placement host_a)
unfolding vms_on get compare_text
vm_on_a = inl refl

hosts_differ : host_b ≢ host_a
hosts_differ e = ground arith

nothing_known : All (λ w. get {V = ℕ} w [] ≡ none) (vms_on placement host_a)
unfolding vms_on get compare_text
nothing_known = (refl, (refl, tt))

pick_victim_without_evidence_example :
    (mv : Rebalance) × (pick_victim percent placement readings [] (at_percent 80) classes ≡ some mv)
    × (mv.from ≡ host_a)
    × In mv.vm (vms_on placement host_a)
    × (get {V = ℕ} mv.vm [] ≡ none)
pick_victim_without_evidence_example =
    pick_victim_without_evidence percent percent_laws placement readings [] (at_percent 80) classes
      readings-IsAscending (refl, (refl, tt)) host_a host_b (at_percent 90) (at_percent 20) class
      class (vm_of 1) host_a_hottest refl known_class vm_on_a (inr (inl refl)) hosts_differ
      known_target same_class refl nothing_known

abbrev move : Migration Phase.intent
move = begin (vm_of 2) host_a host_b

-- An executor that is primed to fail the transfer.
abbrev failing : Script
failing = fail_on transfer_op (b'x' ∷ []) (with_drain quiescent)

drive-Ended_example :
    Ended move 500 pseudo_executor failing
      (drive (recording pseudo_executor) move 500 (failing, []))
drive-Ended_example = drive-Ended move 500 pseudo_executor failing

-- An executor whose effects always work.
abbrev working : MigrationExecutor
working = record {
  World = ℕ;
  request_drain = λ vm d n. (ok quiescent, n + 1);
  cancel_drain = λ vm n. (ok tt, n + 1);
  snapshot = λ vm n. (ok tt, n + 1);
  transfer = λ vm to n. (ok tt, n + 1);
  restore = λ vm to n. (ok tt, n + 1);
  cutover = λ vm to n. (ok tt, n + 1);
  cleanup = λ vm from n. (ok tt, n + 1);
}

abbrev endpoint_at : ℕ → HostEndpoint
endpoint_at n = record {
  control_url = n ∷ [];
  data_listen = (n + 1) ∷ [];
  data_addr = (n + 2) ∷ [];
}

abbrev fleet : Fleet
fleet = add host_b (endpoint_at 20) (add host_a (endpoint_at 10) empty_fleet)

abbrev refusing : PseudoDaemon
refusing = record { calls = []; fail = some send_op }

rebalance_once-Stepped_example :
    Stepped pseudo_daemon
      (λ v. v.uuid ∷ [])
      fleet
      percent
      (pick_victim percent placement readings idle_gaps (at_percent 80) classes)
      (rebalance_once
        (recording_daemon pseudo_daemon)
        (λ v. v.uuid ∷ [])
        percent
        placement
        readings
        idle_gaps
        (at_percent 80)
        classes
        fleet
        (refusing, []))
rebalance_once-Stepped_example =
    rebalance_once-Stepped pseudo_daemon (λ v. v.uuid ∷ []) fleet percent placement readings
      idle_gaps (at_percent 80) classes refusing

-- The move of the example, and that it is the one chosen.
best_move_chosen :
    pick_victim percent placement readings idle_gaps (at_percent 80) classes ≡ some best_move
unfolding pick_victim hottest_host pressure_of coolest_compatible_host most_idle_vm vms_on get
    compare_text compatible_with tsc_within_tolerance kernel_tier max_by min_by
best_move_chosen = refl
