-- ===== src/Hostd/Daemon.antt =====
-- crates/hostd/src/bin/hostd.rs: which request goes where and what is read from it, down to the
-- registry. A URL is taken apart by hyper; a number and a UUID are read by the standard library and
-- the uuid crate. The migration of a VM that is booted for it, without `vm=`, is a parameter.
use sleepwalk.Prelude.{ℕ, Bool, true, false, ◌&&◌, Option, none, some, List, [], ◌∷◌, if◌then◌else◌}
use sleepwalk.Prelude.Strings.{split, split_once}
use sleepwalk.Proto.Ids.{Text, VmId}
use sleepwalk.Proto.Compat.{same_text}
use sleepwalk.Hostd.Migrate.{Host, Status, status_ok, internal_error, Daemon, migrate_send}

pub data HttpMethod : Type 0 where
  get_method post_method : HttpMethod

-- The arms of `route`.
pub data Endpoint : Type 0 where
  healthz metrics status vms_spawn migrate_out migrate_in not_routed : Endpoint

-- "/healthz"
abbrev pub healthz_path : Text
healthz_path = 47 ∷ 104 ∷ 101 ∷ 97 ∷ 108 ∷ 116 ∷ 104 ∷ 122 ∷ []

-- "/metrics"
abbrev pub metrics_path : Text
metrics_path = 47 ∷ 109 ∷ 101 ∷ 116 ∷ 114 ∷ 105 ∷ 99 ∷ 115 ∷ []

-- "/status"
abbrev pub status_path : Text
status_path = 47 ∷ 115 ∷ 116 ∷ 97 ∷ 116 ∷ 117 ∷ 115 ∷ []

-- "/vms/spawn"
abbrev pub spawn_path : Text
spawn_path = 47 ∷ 118 ∷ 109 ∷ 115 ∷ 47 ∷ 115 ∷ 112 ∷ 97 ∷ 119 ∷ 110 ∷ []

-- "/migrate/send"
abbrev pub send_path : Text
send_path = 47 ∷ 109 ∷ 105 ∷ 103 ∷ 114 ∷ 97 ∷ 116 ∷ 101 ∷ 47 ∷ 115 ∷ 101 ∷ 110 ∷ 100 ∷ []

-- "/migrate/recv"
abbrev pub recv_path : Text
recv_path = 47 ∷ 109 ∷ 105 ∷ 103 ∷ 114 ∷ 97 ∷ 116 ∷ 101 ∷ 47 ∷ 114 ∷ 101 ∷ 99 ∷ 118 ∷ []

-- "to", "vm", "listen", "mib", "net"
abbrev pub to_key : Text
to_key = 116 ∷ 111 ∷ []

abbrev pub vm_key : Text
vm_key = 118 ∷ 109 ∷ []

abbrev pub listen_key : Text
listen_key = 108 ∷ 105 ∷ 115 ∷ 116 ∷ 101 ∷ 110 ∷ []

abbrev pub mib_key : Text
mib_key = 109 ∷ 105 ∷ 98 ∷ []

abbrev pub net_key : Text
net_key = 110 ∷ 101 ∷ 116 ∷ []

-- `route`
unfoldable pub route : HttpMethod → Text → Endpoint
route get_method path =
    if same_text path healthz_path
    then healthz
    else if same_text path metrics_path
    then metrics
    else if same_text path status_path
    then status
    else not_routed
route post_method path =
    if same_text path spawn_path
    then vms_spawn
    else if same_text path send_path
    then migrate_out
    else if same_text path recv_path
    then migrate_in
    else not_routed

abbrev pub value_of : Text → Option (Text × Text) → Option Text
value_of key none = none
value_of key (some (k, v)) = if same_text k key then some v else none

abbrev pub or_later : Option Text → Option Text → Option Text
or_later (some v) later = some v
or_later none later = later

-- The closure of `find_map`, pair by pair.
unfoldable pub find_pair : Text → List Text → Option Text
find_pair key [] = none
find_pair key (pair ∷ pairs) = or_later (value_of key (split_once 61 pair)) (find_pair key pairs)

-- `query_param`
unfoldable pub query_param : Option Text → Text → Option Text
query_param none key = none
query_param (some q) key = find_pair key (split 38 q)

-- What `vms_spawn` reads: the memory and whether the VM has a network.
abbrev parsed_or : ℕ → (Text → Option ℕ) → Option Text → ℕ
parsed_or n parse none = n
parsed_or n parse (some t) = elim (parse t) [ some mib ↦ mib | none ↦ n ]

abbrev is_one : Option Text → Bool
is_one none = false
is_one (some t) = same_text t (49 ∷ [])

unfoldable pub spawn_request : (Text → Option ℕ) → Option Text → ℕ × Bool
spawn_request parse_u32 query =
    (parsed_or 128 parse_u32 (query_param query mib_key), is_one (query_param query net_key))

-- The status of an answer: one of `migrate_send` for a running VM, or another.
pub data Answer : Type 0 where
  answered : Status → Answer
  accepted bad_request : Answer

-- What a request to send a VM away asks for.
pub data SendRequest : Type 0 where
  no_target bad_id : SendRequest
  send_fresh : Text → SendRequest
  send_running : VmId → Text → SendRequest

module _ (parse_id : Text → Option VmId) where
  abbrev running_or_fresh : Text → Option Text → SendRequest
  running_or_fresh to none = send_fresh to
  running_or_fresh to (some vm) = elim (parse_id vm) [
    | some id ↦ send_running id to
    | none ↦ bad_id
  ]

  -- The guards with which `migrate_send` begins.
  unfoldable pub send_request : Option Text → SendRequest
  send_request query =
      let vm = query_param query vm_key in
      elim (query_param query to_key) [ some to ↦ running_or_fresh to vm | none ↦ no_target ]

  module _ (h : Host) (drain_deadline patience : ℕ)
      (fresh : Text
        → Daemon h drain_deadline patience
        → Bool × Daemon h drain_deadline patience) where
    abbrev reply_fresh : {D : Type 0} → Bool × D → Answer × D
    reply_fresh (true, d) = (answered status_ok, d)
    reply_fresh (false, d) = (answered internal_error, d)

    -- `migrate_send`
    unfoldable pub serve_send :
        Option Text → Daemon h drain_deadline patience → Answer × Daemon h drain_deadline patience
    serve_send query d = elim (send_request query) [
      | no_target ↦ (bad_request, d)
      | bad_id ↦ (bad_request, d)
      | send_fresh to ↦ reply_fresh (fresh to d)
      | send_running id to ↦
          let (s, d') = migrate_send h drain_deadline patience id to d in (answered s, d')
    ]

-- What `migrate_recv` answers at once, before the restore that it leaves running.
unfoldable pub recv_answer :
    (discover_artifacts : Bool) → (bind_receiver : Text → Bool) → Option Text → Answer
recv_answer artifacts bind query = elim (query_param query listen_key) [
  | none ↦ bad_request
  | some listen ↦ if artifacts && bind listen then accepted else answered internal_error
]
