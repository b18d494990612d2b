-- ===== src/Hostd/Registry/Examples.antt =====
-- The spawning of a VM with a network, with an API key to deliver.
use sleepwalk.Prelude.{ℕ, suc, true, none, some, [], ◌∷◌}
use sleepwalk.Prelude.Results.{ok}
use sleepwalk.Proto.Ids.{vm_ord}
use sleepwalk.Hostd.Registry.{
  SpawnedVm, insert_vm, take_vm, Machine, VmRegistry, SpawnOrder, spawn, unmade,
}
use sleepwalk.Hostd.Registry.Turnover.{Floor, opened}
use sleepwalk.Hostd.Registry.Spawning.{Spawned, spawn-Spawned}

-- The world counts the effects; every variable of the environment is "k".
abbrev willing : Machine
willing = record {
  World = ℕ;
  Error = Unit {0};
  output = λ args n. (ok (true, []), suc n);
  send_frame = λ frame n. (ok tt, suc n);
  create_work = λ n. (ok tt, suc n);
  spawn_process = λ n. (ok tt, suc n);
  call = λ c n. (ok tt, suc n);
  deliver = λ env n. (ok tt, suc n);
  var = λ key. some (107 ∷ []);
  kill = suc;
}

abbrev order : SpawnOrder
order = record {
  id = record { uuid = 12 };
  vsock_uds = 47 ∷ 118 ∷ [];
  mib = 128;
  networked = true;
  kernel = 47 ∷ 107 ∷ [];
  rootfs = 47 ∷ 114 ∷ [];
}

abbrev empty_registry : VmRegistry
empty_registry = record { vms = []; net_seq = 0 }

spawn-Spawned_example :
    Spawned willing order empty_registry true (spawn willing order (empty_registry, 0, unmade))
spawn-Spawned_example = spawn-Spawned willing order empty_registry 0

abbrev spawned_vm : ℕ → SpawnedVm
spawned_vm n = record { id = record { uuid = n }; vsock_uds = []; mib = 128; net = none }

-- One VM is made and a request takes it; while that goes on another is made; then the first has
-- moved.
abbrev after_first : Floor
after_first = record {
  registry = insert_vm (spawned_vm 1) opened.registry;
  leaving = [];
  torn = [];
  made = (spawned_vm 1).id ∷ [];
}

abbrev after_take : Floor
after_take = record after_first {
  registry = (take_vm (record { uuid = 1 }) after_first.registry).1;
  leaving = spawned_vm 1 ∷ [];
}

abbrev after_second : Floor
after_second = record after_take {
  registry = insert_vm (spawned_vm 2) after_take.registry;
  made = (spawned_vm 2).id ∷ after_first.made;
}

abbrev after_move : Floor
after_move = record after_second { leaving = []; torn = (spawned_vm 1).id ∷ [] }
