-- ===== src/Hostd/Firecracker.antt =====
-- crates/hostd/src/firecracker.rs: the client of Firecracker's HTTP API. The connection of hyper and
-- the printing and reading of JSON are the interface `Http`. A path is a text, on which `path_str` does
-- nothing: the paths that the daemon makes are UTF-8. Of an error's detail the words that say where
-- it arose are a `Stage`.
pub mod Words
pub mod Client
pub mod Pseudo
pub mod Commands
pub mod Requests
mod Examples
use sleepwalk.Prelude.{ℕ, ◌==◌, Bool, true, false, Option, none, some, List, [], ◌∷◌, ◌++◌}
use sleepwalk.Prelude.Results.{
  Result, ok, err, map_err, Method, pure, fail, from_result, ◌>>=◌, ◌>>◌,
}
use sleepwalk.Prelude.Strings.{decimal}
use Prim.Native.Nat.{Ordering, lt, eq, gt}
use sleepwalk.Proto.Ids.{Text, compare_text}
use sleepwalk.Hostd.Firecracker.Words.{
  vcpu_key, mem_key, kernel_key, args_key, drive_key, host_path_key, root_key, read_only_key,
  cid_key, uds_key, iface_key, dev_key, mac_key, mem_file_key, snapshot_key, type_key, full_word,
  backend_key, backend_type_key, backend_path_key, resume_key, file_word, uffd_word, http_word,
}

pub data Op : Type 0 where
  configure_machine configure_boot_source configure_drive configure_vsock configure_network : Op
  boot pause resume shutdown create_snapshot load_snapshot : Op

pub data Stage : Type 0 where
  connecting handshake building sending reading serializing : Stage

pub data FirecrackerError : Type 0 where
  rejected : Op → Text → FirecrackerError
  unreachable : Op → Stage → Text → FirecrackerError

pub record BootSource : Type 0 where
  pub kernel_image : Text
  pub boot_args : Text

pub record Drive : Type 0 where
  pub drive_id : Text
  pub path_on_host : Text
  pub is_root_device : Bool
  pub is_read_only : Bool

pub record MachineConfig : Type 0 where
  pub vcpu_count : ℕ
  pub mem_size_mib : ℕ

pub record VsockConfig : Type 0 where
  pub guest_cid : ℕ
  pub uds_path : Text

pub record NetworkConfig : Type 0 where
  pub iface_id : Text
  pub host_dev_name : Text
  pub guest_mac : Text

pub record SnapshotTarget : Type 0 where
  pub mem_file : Text
  pub state_file : Text

pub data MemBackend : Type 0 where
  file uffd : Text → MemBackend

pub record SnapshotSource : Type 0 where
  pub state_file : Text
  pub backend : MemBackend
  pub resume : Bool

-- The values of `serde_json::json!` that are built here: an object is a map, its keys in their order
-- with their values.
mutual
  pub data Json : Type 0 where
    text : Text → Json
    number : ℕ → Json
    flag : Bool → Json
    object : Fields → Json

  pub data Fields : Type 0 where
    no_fields : Fields
    field : Text → Json → Fields → Fields

pub data Verb : Type 0 where
  put patch : Verb

pub record Request : Type 0 where
  pub method : Verb
  pub path : Text
  pub body : Text

pub record Http : Type 1 where
  pub World : Type 0
  pub connect : Method World Text (Unit {0})
  pub handshake : Method World Text (Unit {0})
  pub build : Request → Result (Unit {0}) Text
  pub send_request : Request → Method World Text ℕ  -- the status
  pub collect : Method World Text Text
  pub to_vec : Json → Result Text Text
  -- `from_slice`, then the string under "fault_message".
  pub fault_of : Text → Option Text

-- `Map::insert`
unfoldable pub put_field : Text → Json → Fields → Fields
put_field k v no_fields = field k v no_fields
put_field k v (field l w fs) =
    let rest = put_field k v fs in
    elim (compare_text k l) [
      | lt ↦ field k v (field l w fs)
      | eq ↦ field k v fs
      | gt ↦ field l w rest
    ]

abbrev pub field_list : List (Text × Json) → Fields
field_list [] = no_fields
field_list ((k, v) ∷ fs) = put_field k v (field_list fs)

abbrev record_of : List (Text × Json) → Json
record_of fs = object (field_list fs)

-- The bodies that are printed.
abbrev pub machine_json : MachineConfig → Json
machine_json c = record_of ((vcpu_key, number c.vcpu_count) ∷ (mem_key, number c.mem_size_mib) ∷ [])

abbrev pub boot_json : BootSource → Json
boot_json s = record_of ((kernel_key, text s.kernel_image) ∷ (args_key, text s.boot_args) ∷ [])

abbrev pub drive_json : Drive → Json
drive_json d = record_of (
    (drive_key, text d.drive_id)
    ∷ (host_path_key, text d.path_on_host)
    ∷ (root_key, flag d.is_root_device)
    ∷ (read_only_key, flag d.is_read_only)
    ∷ [])

abbrev pub vsock_json : VsockConfig → Json
vsock_json c = record_of ((cid_key, number c.guest_cid) ∷ (uds_key, text c.uds_path) ∷ [])

abbrev pub network_json : NetworkConfig → Json
network_json c = record_of (
    (iface_key, text c.iface_id)
    ∷ (dev_key, text c.host_dev_name)
    ∷ (mac_key, text c.guest_mac)
    ∷ [])

abbrev pub target_json : SnapshotTarget → Json
target_json t = record_of (
    (mem_file_key, text t.mem_file)
    ∷ (snapshot_key, text t.state_file)
    ∷ (type_key, text full_word)
    ∷ [])

abbrev backend_json : MemBackend → Json
backend_json (file mem_file) =
    record_of ((backend_type_key, text file_word) ∷ (backend_path_key, text mem_file) ∷ [])
backend_json (uffd socket) =
    record_of ((backend_type_key, text uffd_word) ∷ (backend_path_key, text socket) ∷ [])

abbrev pub source_json : SnapshotSource → Json
source_json s = record_of (
    (snapshot_key, text s.state_file)
    ∷ (backend_key, backend_json s.backend)
    ∷ (resume_key, flag s.resume)
    ∷ [])

module _ (h : Http) where
  abbrev pub Call : Type 0
  Call = Method h.World FirecrackerError (Unit {0})

  -- The detail of a rejection.
  unfoldable pub fault_message : Text → ℕ → Text
  fault_message body status = elim (h.fault_of body) [
    | some message ↦ message
    | none ↦ elim body [
      | [] ↦ http_word ++ decimal status
      | c ∷ cs ↦ http_word ++ (decimal status ++ 58 ∷ 32 ∷ c ∷ cs)
    ]
  ]

  abbrev pub reached :
      {A : Type 0} → Op → Stage → Method h.World Text A → Method h.World FirecrackerError A
  reached op stage m w = let (r, w') = m w in (map_err (unreachable op stage) r, w')

  abbrev pub fault_of_body : Op → ℕ → Text → Call
  fault_of_body op status bytes = fail (rejected op (fault_message bytes status))

  abbrev pub answered_if : Bool → Op → ℕ → Call
  answered_if true op status = pure tt
  answered_if false op status = reached op reading h.collect >>= fault_of_body op status

  abbrev pub answered : Op → ℕ → Call
  answered op status = answered_if (status == 204) op status

  -- `Firecracker::send`
  unfoldable pub send : Op → Request → Call
  send op req = do
    reached op connecting h.connect
    reached op handshake h.handshake
    from_result (map_err (unreachable op building) (h.build req))
    status ← reached op sending (h.send_request req)
    answered op status

  -- `json_body`
  abbrev pub json_body : Json → Op → Result Text FirecrackerError
  json_body value op = map_err (unreachable op serializing) (h.to_vec value)

  abbrev pub send_json : Op → Text → Json → Call
  send_json op path value = do
    body ← from_result (json_body value op)
    send op (record { method = put; path = path; body = body })

  abbrev pub send_fixed : Op → Verb → Text → Text → Call
  send_fixed op verb path body = send op (record { method = verb; path = path; body = body })
