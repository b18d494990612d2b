-- ===== src/Hostd/Registry.antt =====
-- crates/hostd/src/registry.rs: the VMs of a host. `spawn` runs over the interface `Machine`: files,
-- `ip`, Firecracker's process and client, the guest link, and the daemon's own environment. What the
-- host holds for the VM that is being made is kept beside the world; the process is killed when it
-- is dropped. Telemetry is left out.
pub mod Spawning
pub mod Turnover
mod Examples
use sleepwalk.Prelude.{
  ℕ, ◌+◌, ◌%◌, ◌^◌, Bool, true, false, Option, none, some, List, [], ◌∷◌, ◌++◌, map, length,
}
use sleepwalk.Prelude.Results.{
  Result, ok, err, map_err, Method, pure, fail, modify, gets, ◌>>=◌, ◌>>◌,
}
use sleepwalk.Prelude.BTreeMap.{BTreeMap, get, insert, remove}
use sleepwalk.Proto.Ids.{Text, VmId, vm_ord, text_ord}
use sleepwalk.Proto.Vsock.{Env}
use sleepwalk.Hostd.Net.{NetId, NetError, Shell, create, boot_arg}
use sleepwalk.Hostd.Firecracker.{MachineConfig, BootSource, Drive, VsockConfig, NetworkConfig}
use sleepwalk.Hostd.Firecracker.Commands.{
  Command, set_machine, set_boot_source, add_drive, add_vsock, add_network, start_vm,
}

pub record Machine : Type 1 where
  pub World : Type 0
  pub Error : Type 0
  pub output : List Text → Method World Text (Bool × Text)
  pub send_frame : List ℕ → Method World Text (Unit {0})
  pub create_work : Method World Error (Unit {0})
  pub spawn_process : Method World Error (Unit {0})
  pub call : Command → Method World Error (Unit {0})
  -- `connect_retry` and `handshake`
  pub deliver : Env → Method World Error (Unit {0})
  pub var : Text → Option Text
  pub kill : World → World

abbrev pub shell_of : Machine → Shell
shell_of m = record { World = m.World; output = m.output; send_frame = m.send_frame }

pub data SpawnError (E : Type 0) : Type 0 where
  work_dir process firecracker secrets : E → SpawnError E
  network : NetError → SpawnError E

-- A VM that was spawned here has no page server.
pub record SpawnedVm : Type 0 where
  pub id : VmId
  pub vsock_uds : Text
  pub mib : ℕ
  pub net : Option NetId

-- What is held for the VM in the making: the work dir, a tap made in full, the process.
pub record Making : Type 0 where
  pub work : Bool
  pub tap : Bool
  pub process : Bool

abbrev pub unmade : Making
unmade = record { work = false; tap = false; process = false }

-- The registry with `NET_SEQ`.
pub record VmRegistry : Type 0 where
  pub vms : BTreeMap VmId SpawnedVm
  pub net_seq : ℕ

-- "console=ttyS0 reboot=k panic=1 pci=off root=/dev/vda rw init=/init"
abbrev pub boot_args : Text
boot_args =
    99 ∷ 111 ∷ 110 ∷ 115 ∷ 111 ∷ 108 ∷ 101 ∷ 61 ∷ 116 ∷ 116 ∷ 121 ∷ 83 ∷ 48 ∷ 32 ∷ 114 ∷ 101 ∷ 98
    ∷ 111 ∷ 111 ∷ 116 ∷ 61 ∷ 107 ∷ 32 ∷ 112 ∷ 97 ∷ 110 ∷ 105 ∷ 99 ∷ 61 ∷ 49 ∷ 32 ∷ 112 ∷ 99 ∷ 105
    ∷ 61 ∷ 111 ∷ 102 ∷ 102 ∷ 32 ∷ 114 ∷ 111 ∷ 111 ∷ 116 ∷ 61 ∷ 47 ∷ 100 ∷ 101 ∷ 118 ∷ 47 ∷ 118 ∷ 100
    ∷ 97 ∷ 32 ∷ 114 ∷ 119 ∷ 32 ∷ 105 ∷ 110 ∷ 105 ∷ 116 ∷ 61 ∷ 47 ∷ 105 ∷ 110 ∷ 105 ∷ 116 ∷ []

-- The arguments of the call, the artifacts and the names drawn for it.
pub record SpawnOrder : Type 0 where
  pub id : VmId
  pub vsock_uds : Text
  pub mib : ℕ
  pub networked : Bool
  pub kernel : Text
  pub rootfs : Text

-- "AGENT_API_KEY", "AGENT_MODEL", "AGENT_GAP_SECS"
abbrev api_key : Text
api_key = 65 ∷ 71 ∷ 69 ∷ 78 ∷ 84 ∷ 95 ∷ 65 ∷ 80 ∷ 73 ∷ 95 ∷ 75 ∷ 69 ∷ 89 ∷ []

abbrev model_key : Text
model_key = 65 ∷ 71 ∷ 69 ∷ 78 ∷ 84 ∷ 95 ∷ 77 ∷ 79 ∷ 68 ∷ 69 ∷ 76 ∷ []

abbrev gap_key : Text
gap_key = 65 ∷ 71 ∷ 69 ∷ 78 ∷ 84 ∷ 95 ∷ 71 ∷ 65 ∷ 80 ∷ 95 ∷ 83 ∷ 69 ∷ 67 ∷ 83 ∷ []

abbrev with_args : Option NetId → Text
with_args none = boot_args
with_args (some n) = boot_args ++ 32 ∷ boot_arg n

module _ (m : Machine) where
  abbrev pub State : Type 0
  State = VmRegistry × m.World × Making

  abbrev pub Spawning : Type 0 → Type 0
  Spawning A = Method State (SpawnError m.Error) A

  abbrev pub effect : {A E : Type 0} → (E → SpawnError m.Error) → Method m.World E A → Spawning A
  effect e f (g, w, h) = let (r, w') = f w in (map_err e r, (g, w', h))

  abbrev pub making : (Making → Making) → Spawning (Unit {0})
  making f (g, w, h) = (ok tt, (g, w, f h))

  abbrev option_env : Text → Env → Env
  option_env key env = elim (m.var key) [ none ↦ env | some v ↦ insert key v env ]

  -- `boot_secrets`
  unfoldable pub boot_secrets : Option Env
  boot_secrets = elim (m.var api_key) [
    | none ↦ none
    | some key ↦ elim key [
      | [] ↦ none
      | c ∷ cs ↦ some (option_env gap_key (option_env model_key (insert api_key (c ∷ cs) [])))
    ]
  ]

  -- Plumbing the network of a VM that is to have one; the index is a `u32`.
  unfoldable pub plumb_vm : Bool → Spawning (Option NetId)
  plumb_vm false s = (ok none, s)
  plumb_vm true (g, w, h) =
      (do
        net ← effect network (create (shell_of m) (g.net_seq % 2 ^ 32))
        making λ k. record k { tap = true }
        pure (some net))
        (record g { net_seq = (g.net_seq + 1) % 2 ^ 64 }, w, h)

  abbrev pub issue_all : List Command → Spawning (Unit {0})
  issue_all [] = pure tt
  issue_all (c ∷ cs) = effect firecracker (m.call c) >> issue_all cs

  abbrev network_command : Option NetId → List Command
  network_command none = []
  -- "eth0"
  network_command (some n) =
      add_network
        (record { iface_id = 101 ∷ 116 ∷ 104 ∷ 48 ∷ []; host_dev_name = n.tap; guest_mac = n.mac })
      ∷ []

  -- The calls of the client, in order.
  abbrev pub boot_commands : SpawnOrder → Option NetId → List Command
  boot_commands o net =
      set_machine (record { vcpu_count = 1; mem_size_mib = o.mib })
      ∷ set_boot_source (record { kernel_image = o.kernel; boot_args = with_args net })
      -- "rootfs"
      ∷ add_drive (record {
        drive_id = 114 ∷ 111 ∷ 111 ∷ 116 ∷ 102 ∷ 115 ∷ [];
        path_on_host = o.rootfs;
        is_root_device = true;
        is_read_only = false;
      })
      ∷ add_vsock (record { guest_cid = 3; uds_path = o.vsock_uds })
      ∷ (network_command net ++ start_vm ∷ [])

  abbrev pub deliver_env : Option Env → Spawning (Unit {0})
  deliver_env none = pure tt
  deliver_env (some env) = effect secrets (m.deliver env)

  unfoldable pub deliver_secrets : Spawning (Unit {0})
  deliver_secrets = deliver_env boot_secrets

  -- What is done while the process is alive; if it fails, the process is dropped.
  abbrev pub or_drop : Spawning (Unit {0}) → Spawning (Unit {0})
  or_drop f s =
      let (r, (g, w, h)) = f s in
      elim r [
        | ok _ ↦ (ok tt, (g, w, h))
        | err e ↦ (err e, (g, m.kill w, record h { process = false }))
      ]

  abbrev pub register : SpawnOrder → Option NetId → Spawning VmId
  register o net (g, w, h) = (
    ok o.id,
    (
      record g {
        vms =
            insert o.id (record { id = o.id; vsock_uds = o.vsock_uds; mib = o.mib; net = net })
              g.vms;
      },
      w,
      h,
    ),
  )

  -- From `FcProcess::spawn` on.
  unfoldable pub launch : SpawnOrder → Option NetId → Spawning VmId
  launch o net = do
    effect process m.spawn_process
    making λ k. record k { process = true }
    or_drop (issue_all (boot_commands o net) >> deliver_secrets)
    register o net

  -- `VmRegistry::spawn`
  unfoldable pub spawn : SpawnOrder → Spawning VmId
  spawn o = do
    effect work_dir m.create_work
    making λ k. record k { work = true }
    net ← plumb_vm o.networked
    launch o net

-- `VmRegistry::insert`
unfoldable pub insert_vm : SpawnedVm → VmRegistry → VmRegistry
insert_vm vm g = record g { vms = insert vm.id vm g.vms }

-- `VmRegistry::take`
unfoldable pub take_vm : VmId → VmRegistry → Option SpawnedVm × VmRegistry
take_vm id g = (get id g.vms, record g { vms = remove id g.vms })

-- How `migrate_running` ends for the VM that it was given.
pub data Parting : Type 0 where
  moved stood_down failed : Parting

-- What `migrate_send` does with the VM when `migrate_running` has come back, and the VMs torn down by
-- then: a VM that stood down is registered again, and any other was torn down on the way.
unfoldable pub settle : SpawnedVm → Parting → VmRegistry → VmRegistry × List VmId
settle vm moved g = (g, vm.id ∷ [])
settle vm stood_down g = (insert_vm vm g, [])
settle vm failed g = (g, vm.id ∷ [])

abbrev pub torn_down : Option SpawnedVm → VmRegistry → Bool × (VmRegistry × List VmId)
torn_down none g = (false, (g, []))
torn_down (some vm) g = (true, (g, vm.id ∷ []))

-- `VmRegistry::remove`, with the VMs it tears down.
unfoldable pub remove_vm : VmId → VmRegistry → Bool × (VmRegistry × List VmId)
remove_vm id g = torn_down (get id g.vms) (record g { vms = remove id g.vms })

-- The ids that `VmRegistry::status` reports, with the display of an id.
unfoldable pub status_vms : (VmId → Text) → VmRegistry → List Text
status_vms to_string g = map (λ e. to_string e.0) g.vms
