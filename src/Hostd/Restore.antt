-- ===== src/Hostd/Restore.antt =====
-- The way of a VM into a host: `receive_and_restore` and its two callers in
-- crates/hostd/src/migrate.rs, `RunningVm::teardown` of crates/hostd/src/registry.rs, and
-- `migrate_recv` of crates/hostd/src/bin/hostd.rs once it listens. Files, sockets, the tap, the page
-- server and Firecracker are the interface `Target`; what the host holds for the VM is kept beside
-- its world. The pause after the resume and log lines are left out.
pub mod Holdings
mod Examples
use sleepwalk.Prelude.{
  [], ℕ, ◌/◌, ◌%◌, ◌^◌, ◌*◌, Bool, true, false, not, ◌&&◌, leb, Option, none, some, if◌then◌else◌,
}
use sleepwalk.Prelude.Results.{
  Result, ok, err, map_err, Method, pure, fail, fail_if, from_result, modify, gets, ◌>>=◌, ◌>>◌,
}
use sleepwalk.Prelude.BTreeMap.{BTreeMap, insert}
use sleepwalk.Prelude.Strings.{trim}
use sleepwalk.Proto.Ids.{Text, VmId, vm_ord}
use sleepwalk.Hostd.Net.{NetId}

-- The `ip` commands of `net::create_tap`: `tuntap add`, and the two `link set`.
pub data TapCommand : Type 0 where
  add_tap set_master set_up : TapCommand

pub record Target : Type 1 where
  pub World : Type 0
  pub Error : Type 0
  pub create_work : Method World Error (Unit {0})
  pub recv_snapshot : Method World Error ℕ  -- the number of files
  pub net_exists : World → Bool
  pub read_net : Method World Error Text
  pub parse_net : Text → Result NetId Error
  pub tap_command : TapCommand → Text → Method World Error (Unit {0})
  pub bind_uffd : Method World Error (Unit {0})
  pub start_server : World → World
  pub spawn : Method World Error (Unit {0})
  pub load_snapshot : Method World Error (Unit {0})
  pub announce : NetId → World → World
  pub vsock_exists : World → Bool
  pub read_vsock : Method World Error Text
  pub mem_len : World → Option ℕ
  pub kill : World → World
  pub stop_server : World → World
  pub remove_work : World → World
  pub destroy_tap : Text → World → World
  pub remove_socket : Text → World → World

pub data RestoreError (E : Type 0) : Type 0 where
  work_dir transfer net_read net_parse uffd process firecracker : E → RestoreError E
  file_count : ℕ → RestoreError E
  tap : TapCommand → E → RestoreError E  -- with the command that the error shows

-- The `RunningVm` that is made here, whose page server is always present.
pub record RestoredVm : Type 0 where
  pub id : VmId
  pub vsock_uds : Text
  pub mib : ℕ
  pub net : Option NetId

-- What the host holds: the work dir, a tap, attached or not, the serving thread, the process.
pub record Held : Type 0 where
  pub work : Bool
  pub tap : Bool
  pub server : Bool
  pub process : Bool

abbrev pub nothing : Held
nothing = record { work = false; tap = false; server = false; process = false }

-- `mem_mib`
unfoldable pub mem_mib : Option ℕ → ℕ
mem_mib none = 0
mem_mib (some bytes) = (bytes / (1024 * 1024)) % 2 ^ 32

module _ (t : Target) where
  abbrev pub State : Type 0
  State = t.World × Held

  abbrev pub Restoring : Type 0 → Type 0
  Restoring A = Method State (RestoreError t.Error) A

  abbrev pub attempt :
      {A : Type 0} → (t.Error → RestoreError t.Error) → Method t.World t.Error A → Restoring A
  attempt e m (w, h) = let (r, w') = m w in (map_err e r, (w', h))

  abbrev act : (t.World → t.World) → (Held → Held) → Restoring (Unit {0})
  act f g (w, h) = (ok tt, (f w, g h))

  abbrev holding : (Held → Held) → Restoring (Unit {0})
  holding g (w, h) = (ok tt, (w, g h))

  -- `create_tap`, on whose failure the work dir goes.
  abbrev or_remove : {A : Type 0} → Restoring A → Restoring A
  or_remove m s =
      let (r, (w, h)) = m s in
      elim r [
        | ok a ↦ (ok a, (w, h))
        | err e ↦ (err e, (t.remove_work w, record h { work = false }))
      ]

  abbrev pub tap_step : TapCommand → Text → Restoring (Unit {0})
  tap_step c name = attempt (RestoreError.tap c) (t.tap_command c name)

  -- `net::create_tap`; the tap is there from its first command on.
  unfoldable pub create_tap : Text → Restoring (Unit {0})
  create_tap name = do
    tap_step add_tap name
    holding λ h. record h { tap = true }
    tap_step set_master name
    tap_step set_up name

  abbrev pub make_tap : NetId → Restoring (Option NetId)
  make_tap net = or_remove (create_tap net.tap) >> pure (some net)

  abbrev pub parse_and_tap : Text → Restoring (Option NetId)
  parse_and_tap bytes = from_result (map_err net_parse (t.parse_net bytes)) >>= make_tap

  -- The network of a VM that has one.
  unfoldable pub plumb : Restoring (Option NetId)
  plumb (w, h) = elim (t.net_exists w) [
    | true ↦ (attempt net_read t.read_net >>= parse_and_tap) (w, h)
    | false ↦ (ok none, (w, h))
  ]

  abbrev drop_tap : Option NetId → Restoring (Unit {0})
  drop_tap none = pure tt
  drop_tap (some net) = act (t.destroy_tap net.tap) (λ h. record h { tap = false })

  -- What follows a snapshot that does not load.
  abbrev pub clean_up : Option NetId → Restoring (Unit {0})
  clean_up net = do
    act t.kill (λ h. record h { process = false })
    act t.stop_server (λ h. record h { server = false })
    drop_tap net
    act t.remove_work (λ h. record h { work = false })

  abbrev announced : Option NetId → Restoring (Unit {0})
  announced none = pure tt
  announced (some net) = act (t.announce net) (λ h. h)

  abbrev vsock_path : Restoring Text
  vsock_path (w, h) = elim (t.vsock_exists w) [
    | true ↦
        let (r, w') = t.read_vsock w in
        elim r [ ok s ↦ (ok (trim s), (w', h)) | err e ↦ (ok [], (w', h)) ]
    | false ↦ (ok [], (w, h))
  ]

  -- From `load_snapshot` on.
  unfoldable pub finish : VmId → Option NetId → Restoring RestoredVm
  finish id net (w, h) =
      let (r, w') = t.load_snapshot w in
      elim r [
        | err e ↦ (clean_up net >> fail (firecracker e)) (w', h)
        | ok _ ↦
            (do
              announced net
              uds ← vsock_path
              bytes ← gets λ s. t.mem_len s.0
              pure (record { id = id; vsock_uds = uds; mib = mem_mib bytes; net = net }))
              (w', h)
      ]

  -- From `UffdRestoreHandler::bind` on.
  unfoldable pub start : VmId → Option NetId → Restoring RestoredVm
  start id net = do
    attempt uffd t.bind_uffd
    act t.start_server (λ h. record h { server = true })
    attempt process t.spawn
    holding λ h. record h { process = true }
    finish id net

  -- `receive_and_restore`, with the id that it draws.
  unfoldable pub receive_and_restore : VmId → Restoring RestoredVm
  receive_and_restore id = do
    attempt work_dir t.create_work
    holding λ h. record h { work = true }
    files ← attempt transfer t.recv_snapshot
    fail_if (not (leb 2 files && leb files 4)) (file_count files)
    net ← plumb
    start id net

  -- `RunningVm::teardown`
  unfoldable pub teardown_restored : RestoredVm → Restoring (Unit {0})
  teardown_restored vm = do
    act t.kill (λ h. record h { process = false })
    act t.stop_server (λ h. record h { server = false })
    drop_tap vm.net
    act t.remove_work (λ h. record h { work = false })
    act (t.remove_socket vm.vsock_uds) (λ h. h)

  -- `restore_target`
  unfoldable pub restore_target : VmId → Restoring (Unit {0})
  restore_target id = receive_and_restore id >>= teardown_restored

  -- `migrate_recv` once it listens: `restore_register`, and the registry.
  unfoldable pub restore_into :
      VmId → BTreeMap VmId RestoredVm → State → BTreeMap VmId RestoredVm × State
  restore_into id vms s =
      let (r, s') = receive_and_restore id s in
      elim r [ ok vm ↦ (insert vm.id vm vms, s') | err e ↦ (vms, s') ]
