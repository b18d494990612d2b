-- ===== src/Hostd/Firecracker/Commands.antt =====
-- crates/hostd/src/firecracker.rs: the client's methods as commands, the table of their endpoints, and
-- how a server reads their requests.
use sleepwalk.Prelude.{
  ℕ, Bool, true, false, ◌&&◌, ◌==◌, Option, none, some, [], ◌∷◌, ◌++◌, if◌then◌else◌,
}
use sleepwalk.Prelude.Strings.{starts_with}
use sleepwalk.Proto.Ids.{Text}
use sleepwalk.Hostd.Firecracker.Words.{
  machine_path, boot_path, drives_path, vsock_path, network_path, actions_path, vm_path,
  create_path, load_path, start_body, pause_body, file_word, vcpu_key, mem_key, kernel_key,
  args_key, drive_key, host_path_key, root_key, read_only_key, cid_key, uds_key, iface_key, dev_key,
  mac_key, mem_file_key, snapshot_key, backend_key, backend_type_key, backend_path_key, resume_key,
}
use sleepwalk.Hostd.Firecracker.{
  Http, Call, Op, Request, Verb, put, patch, MachineConfig, BootSource, Drive, VsockConfig,
  NetworkConfig, SnapshotTarget, SnapshotSource, MemBackend, file, uffd, Json, Fields, text, number,
  flag, object, field, no_fields,
}
use sleepwalk.Hostd.Firecracker.Client

-- A call with its arguments.
pub data Command : Type 0 where
  set_machine : MachineConfig → Command
  set_boot_source : BootSource → Command
  add_drive : Drive → Command
  add_vsock : VsockConfig → Command
  add_network : NetworkConfig → Command
  start_vm pause_vm resume_vm stop_vm : Command
  save_snapshot : SnapshotTarget → Command
  restore_snapshot : SnapshotSource → Command

abbrev pub op_of : Command → Op
op_of (set_machine c) = Op.configure_machine
op_of (set_boot_source c) = Op.configure_boot_source
op_of (add_drive c) = Op.configure_drive
op_of (add_vsock c) = Op.configure_vsock
op_of (add_network c) = Op.configure_network
op_of start_vm = Op.boot
op_of pause_vm = Op.pause
op_of resume_vm = Op.resume
op_of stop_vm = Op.shutdown
op_of (save_snapshot c) = Op.create_snapshot
op_of (restore_snapshot c) = Op.load_snapshot

abbrev pub perform : (h : Http) → Command → Call h
perform h (set_machine c) = Client.configure_machine h c
perform h (set_boot_source c) = Client.configure_boot_source h c
perform h (add_drive c) = Client.configure_drive h c
perform h (add_vsock c) = Client.configure_vsock h c
perform h (add_network c) = Client.configure_network h c
perform h start_vm = Client.boot h
perform h pause_vm = Client.pause h
perform h resume_vm = Client.resume h
perform h stop_vm = Client.shutdown h
perform h (save_snapshot c) = Client.create_snapshot h c
perform h (restore_snapshot c) = Client.load_snapshot h c

unfoldable pub same_chars : Text → Text → Bool
same_chars [] [] = true
same_chars (a ∷ s) (b ∷ t) = a == b && same_chars s t
same_chars _ _ = false

-- What an object has under a key.
unfoldable pub value_at : Text → Fields → Option Json
value_at key no_fields = none
value_at key (field k v fs) =
    let rest = value_at key fs in if same_chars key k then some v else rest

abbrev pub as_number : Option Json → Option ℕ
as_number (some (number n)) = some n
as_number _ = none

abbrev pub as_text : Option Json → Option Text
as_text (some (text t)) = some t
as_text _ = none

abbrev pub as_flag : Option Json → Option Bool
as_flag (some (flag b)) = some b
as_flag _ = none

-- A path or a socket, by the type that stands beside it.
abbrev pub as_backend : Option Json → Option MemBackend
as_backend (some (object fs)) = elim (as_text (value_at backend_type_key fs)) [
  | none ↦ none
  | some kind ↦ elim (as_text (value_at backend_path_key fs)) [
    | none ↦ none
    | some path ↦ some (if same_chars kind file_word then file path else uffd path)
  ]
]
as_backend _ = none

abbrev both : {A B C : Type 0} → (A → B → C) → Option A → Option B → Option C
both f (some a) (some b) = some (f a b)
both f _ _ = none

abbrev also : {A B : Type 0} → Option (A → B) → Option A → Option B
also (some f) (some a) = some (f a)
also _ _ = none

abbrev read_machine : Fields → Option Command
read_machine fs =
    both (λ a b. set_machine (record { vcpu_count = a; mem_size_mib = b }))
      (as_number (value_at vcpu_key fs)) (as_number (value_at mem_key fs))

abbrev read_boot : Fields → Option Command
read_boot fs =
    both (λ a b. set_boot_source (record { kernel_image = a; boot_args = b }))
      (as_text (value_at kernel_key fs)) (as_text (value_at args_key fs))

abbrev read_drive : Fields → Option Command
read_drive fs =
    also
      (also
        (both
          (λ a b c d.
            add_drive
              (record { drive_id = a; path_on_host = b; is_root_device = c; is_read_only = d }))
          (as_text (value_at drive_key fs)) (as_text (value_at host_path_key fs)))
        (as_flag (value_at root_key fs)))
      (as_flag (value_at read_only_key fs))

abbrev read_vsock : Fields → Option Command
read_vsock fs =
    both (λ a b. add_vsock (record { guest_cid = a; uds_path = b }))
      (as_number (value_at cid_key fs)) (as_text (value_at uds_key fs))

abbrev read_network : Fields → Option Command
read_network fs =
    also
      (both (λ a b c. add_network (record { iface_id = a; host_dev_name = b; guest_mac = c }))
        (as_text (value_at iface_key fs)) (as_text (value_at dev_key fs)))
      (as_text (value_at mac_key fs))

abbrev read_target : Fields → Option Command
read_target fs =
    both (λ a b. save_snapshot (record { mem_file = a; state_file = b }))
      (as_text (value_at mem_file_key fs)) (as_text (value_at snapshot_key fs))

abbrev read_source : Fields → Option Command
read_source fs =
    also
      (both (λ a b c. restore_snapshot (record { state_file = a; backend = b; resume = c }))
        (as_text (value_at snapshot_key fs)) (as_backend (value_at backend_key fs)))
      (as_flag (value_at resume_key fs))

-- How a server reads the documented bodies: by the path, and every field under its key.
unfoldable pub read_object : Text → Json → Option Command
read_object path (object fs) =
    if same_chars path machine_path
    then read_machine fs
    else if same_chars path boot_path
    then read_boot fs
    else if starts_with path drives_path
    then read_drive fs
    else if same_chars path vsock_path
    then read_vsock fs
    else if starts_with path network_path
    then read_network fs
    else if same_chars path create_path
    then read_target fs
    else if same_chars path load_path
    then read_source fs
    else none
read_object path _ = none

-- How a server reads a request, where `from_slice` reads JSON.
unfoldable pub command_of : (Text → Option Json) → Request → Option Command
unfolding read_object same_chars value_at starts_with
command_of from_slice r =
    if same_chars r.path actions_path
    then (if same_chars r.body start_body then some start_vm else some stop_vm)
    else if same_chars r.path vm_path
    then (if same_chars r.body pause_body then some pause_vm else some resume_vm)
    else elim (from_slice r.body) [ none ↦ none | some v ↦ read_object r.path v ]

-- The table of the endpoints.
abbrev pub endpoint_of : Command → Verb × Text
endpoint_of (set_machine c) = (put, machine_path)
endpoint_of (set_boot_source c) = (put, boot_path)
endpoint_of (add_drive c) = (put, drives_path ++ c.drive_id)
endpoint_of (add_vsock c) = (put, vsock_path)
endpoint_of (add_network c) = (put, network_path ++ c.iface_id)
endpoint_of start_vm = (put, actions_path)
endpoint_of pause_vm = (patch, vm_path)
endpoint_of resume_vm = (patch, vm_path)
endpoint_of stop_vm = (put, actions_path)
endpoint_of (save_snapshot c) = (put, create_path)
endpoint_of (restore_snapshot c) = (put, load_path)
