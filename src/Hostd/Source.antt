-- ===== src/Hostd/Source.antt =====
-- crates/hostd/src/migrate.rs: `snapshot_and_send` and `migrate_source`, which boots a VM only to
-- send it away. The effects are those of `Host` and the interface `Source`; what the host holds for
-- the VM is kept beside the world, and the process is killed when it is dropped. Telemetry is left
-- out.
pub mod Gate
mod Examples
use sleepwalk.Prelude.{ℕ, ◌-◌, Bool, true, false, Option, none, some, List, [], ◌∷◌, ◌++◌}
use sleepwalk.Prelude.Results.{Result, ok, err, map_err, Method, pure, fail, gets, ◌>>=◌, ◌>>◌}
use sleepwalk.Proto.Ids.{Text}
use sleepwalk.Hostd.Firecracker.{MachineConfig, BootSource, Drive, VsockConfig, SnapshotTarget}
use sleepwalk.Hostd.Firecracker.Commands.{
  Command, set_machine, set_boot_source, add_drive, add_vsock, start_vm, pause_vm, save_snapshot,
}
use sleepwalk.Hostd.Registry.{boot_args}
use sleepwalk.Hostd.Migrate.{
  Host, LinkError, DrainState, quiescent, busy, link_handshake, link_drain,
}

pub record Source (h : Host) : Type 0 where
  pub create_work : Method h.World h.Error (Unit {0})
  pub spawn_process : Method h.World h.Error (Unit {0})
  pub call : Command → Method h.World h.Error (Unit {0})
  pub connect_retry : Method h.World h.Error (Unit {0})
  pub send_snapshot : Text → List Text → Method h.World h.Error (Unit {0})
  pub mem_len : h.World → Option ℕ
  pub clock : h.World → ℕ
  pub kill : h.World → h.World
  pub remove_work : h.World → h.World
  pub remove_socket : h.World → h.World

pub data SourceError (E : Type 0) : Type 0 where
  work_dir process firecracker transfer connect : E → SourceError E
  handshake drain : LinkError E → SourceError E
  not_quiescent : SourceError E

pub record SourceTiming : Type 0 where
  pub snapshot : ℕ
  pub transfer : ℕ
  pub bytes : ℕ

-- What the host holds.
pub record Holding : Type 0 where
  pub work : Bool
  pub process : Bool

-- The artifacts and the paths drawn for the migration.
pub record SourceOrder : Type 0 where
  pub kernel : Text
  pub rootfs : Text
  pub vsock_uds : Text
  pub mem_file : Text
  pub state_file : Text

-- The calls of the client until the VM runs.
abbrev pub source_commands : SourceOrder → List Command
source_commands o =
    set_machine (record { vcpu_count = 1; mem_size_mib = 256 })
    ∷ set_boot_source (record { kernel_image = o.kernel; boot_args = boot_args })
    -- "rootfs"
    ∷ add_drive (record {
      drive_id = 114 ∷ 111 ∷ 111 ∷ 116 ∷ 102 ∷ 115 ∷ [];
      path_on_host = o.rootfs;
      is_root_device = true;
      is_read_only = false;
    })
    ∷ add_vsock (record { guest_cid = 3; uds_path = o.vsock_uds })
    ∷ start_vm
    ∷ []

-- "mem.snap"
abbrev pub mem_name : Text
mem_name = 109 ∷ 101 ∷ 109 ∷ 46 ∷ 115 ∷ 110 ∷ 97 ∷ 112 ∷ []

-- "state.snap"
abbrev pub state_name : Text
state_name = 115 ∷ 116 ∷ 97 ∷ 116 ∷ 101 ∷ 46 ∷ 115 ∷ 110 ∷ 97 ∷ 112 ∷ []

abbrev pub or_none : Option ℕ → ℕ
or_none none = 0
or_none (some n) = n

module _ (h : Host) (s : Source h) (drain_deadline patience : ℕ) where
  abbrev pub State : Type 0
  State = h.World × Holding

  abbrev pub Sourcing : Type 0 → Type 0
  Sourcing A = Method State (SourceError h.Error) A

  abbrev pub effect : {A E : Type 0} → (E → SourceError h.Error) → Method h.World E A → Sourcing A
  effect e f (w, k) = let (r, w') = f w in (map_err e r, (w', k))

  abbrev pub holding : (Holding → Holding) → Sourcing (Unit {0})
  holding f (w, k) = (ok tt, (w, f k))

  abbrev pub now : Sourcing ℕ
  now (w, k) = (ok (s.clock w), (w, k))

  -- `snapshot_and_send`
  unfoldable pub snapshot_and_send : SourceOrder → Text → List Text → Sourcing SourceTiming
  snapshot_and_send o addr extra = do
    t0 ← now
    effect firecracker (s.call pause_vm)
    effect firecracker
        (s.call (save_snapshot (record { mem_file = o.mem_file; state_file = o.state_file })))
    t1 ← now
    effect transfer (s.send_snapshot addr (mem_name ∷ state_name ∷ extra))
    t2 ← now
    bytes ← gets λ x. or_none (s.mem_len x.0)
    pure (record { snapshot = t1 - t0; transfer = t2 - t1; bytes = bytes })

  abbrev pub call_all : List Command → Sourcing (Unit {0})
  call_all [] = pure tt
  call_all (c ∷ cs) = effect firecracker (s.call c) >> call_all cs

  -- An early return drops the process.
  abbrev pub or_drop : {A : Type 0} → Sourcing A → Sourcing A
  or_drop f x =
      let (r, (w, k)) = f x in
      elim r [ ok a ↦ (ok a, (w, k)) | err e ↦ (err e, (s.kill w, record k { process = false })) ]

  abbrev pub cleared : State → State
  cleared (w, k) =
      (s.remove_socket (s.remove_work (s.kill w)), record { work = false; process = false })

  -- The closure `abort`, before an error is returned.
  abbrev pub or_abort : {A : Type 0} → Sourcing A → Sourcing A
  or_abort f x = let (r, x') = f x in elim r [ ok a ↦ (ok a, x') | err e ↦ (err e, cleared x') ]

  abbrev pub quiet : DrainState → Sourcing (Unit {0})
  quiet quiescent = pure tt
  quiet busy = fail not_quiescent

  -- The safety gate.
  unfoldable pub drain_guest : Sourcing (Unit {0})
  drain_guest = do
    effect connect s.connect_retry
    effect handshake (link_handshake h drain_deadline patience)
    state ← effect drain (link_drain h drain_deadline patience)
    quiet state

  -- `migrate_source`
  unfoldable pub migrate_source : SourceOrder → Text → Sourcing SourceTiming
  migrate_source o addr = do
    effect work_dir s.create_work
    holding λ k. record k { work = true }
    effect process s.spawn_process
    holding λ k. record k { process = true }
    or_drop (call_all (source_commands o))
    or_abort drain_guest
    timing ← or_drop (snapshot_and_send o addr [])
    λ x. (ok timing, cleared x)
