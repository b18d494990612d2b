-- ===== src/Hostd/Registry/Turnover.antt =====
-- The VMs of a daemon whose requests overlap: every access to the registry holds its lock, and
-- between two accesses of one request any others may come.
use sleepwalk.Prelude.{
  ℕ, ◌+◌, ◌≤◌, ◌≡◌, Option, none, some, List, [], ◌∷◌, ◌++◌, ◌==◌, if◌then◌else◌,
}
use sleepwalk.Prelude.BTreeMap.{BTreeMap, get, IsAscending}
use sleepwalk.Proto.Ids.{VmId, vm_ord}
use sleepwalk.Hostd.Registry.{SpawnedVm, VmRegistry, insert_vm, take_vm, remove_vm, Parting, settle}

-- The registry, the VMs that requests have taken and not yet done with, the VMs torn down, and all
-- that were ever made here.
pub record Floor : Type 0 where
  pub registry : VmRegistry
  pub leaving : List SpawnedVm
  pub torn : List VmId
  pub made : List VmId

-- How often an id stands in a list.
abbrev pub count : VmId → List VmId → ℕ
count id [] = 0
count id (j ∷ js) = let rest = count id js in if id.uuid == j.uuid then 1 + rest else rest

abbrev pub ids : List SpawnedVm → List VmId
ids [] = []
ids (vm ∷ vms) = vm.id ∷ ids vms

abbrev pub one_if : Option SpawnedVm → ℕ
one_if none = 0
one_if (some vm) = 1

-- How often a VM is registered, on its way out, or torn down.
abbrev pub places : VmId → Floor → ℕ
places id f = one_if (get id f.registry.vms) + count id (ids f.leaving) + count id f.torn

-- What a request does to them at once.
pub data Step : Floor → Floor → Type 0 where
  -- `spawn` or a restore has made a VM, under an id that was never drawn here.
  arrives :
      (vm : SpawnedVm) (f : Floor)
      → count vm.id f.made ≡ 0
      → Step f (record f { registry = insert_vm vm f.registry; made = vm.id ∷ f.made })
  -- `migrate_send` begins.
  is_taken :
      (id : VmId) (vm : SpawnedVm) (f : Floor)
      → (take_vm id f.registry).0 ≡ some vm
      → Step f (record f { registry = (take_vm id f.registry).1; leaving = vm ∷ f.leaving })
  -- `migrate_running` has come back to it.
  settles :
      (vm : SpawnedVm) (p : Parting) (before after : List SpawnedVm) (f : Floor)
      → f.leaving ≡ before ++ vm ∷ after
      → Step f (record f {
        registry = (settle vm p f.registry).0;
        leaving = before ++ after;
        torn = (settle vm p f.registry).1 ++ f.torn;
      })
  -- `remove`
  is_removed :
      (id : VmId) (f : Floor)
      → Step f (record f {
        registry = (remove_vm id f.registry).1.0;
        torn = (remove_vm id f.registry).1.1 ++ f.torn;
      })

-- A daemon that has just started.
abbrev pub opened : Floor
opened = record { registry = record { vms = []; net_seq = 0 }; leaving = []; torn = []; made = [] }

-- What a daemon comes to by any steps.
pub data Reach : Floor → Type 0 where
  opens : Reach opened
  goes : (f g : Floor) → Reach f → Step f g → Reach g

pub record Accounted (f : Floor) : Type 0 where
  pub ascending : IsAscending f.registry.vms
  pub own_id : (id : VmId) (vm : SpawnedVm) → get id f.registry.vms ≡ some vm → vm.id ≡ id
  pub placed : (id : VmId) → places id f ≡ count id f.made
  pub once : (id : VmId) → count id f.made ≤ 1
