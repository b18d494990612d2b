-- ===== src/Hostd/Firecracker/Words.antt =====
-- crates/hostd/src/firecracker.rs: the keys, paths and fixed bodies of the requests.
use sleepwalk.Prelude.{[], ◌∷◌}
use sleepwalk.Proto.Ids.{Text}

-- "vcpu_count"
abbrev pub vcpu_key : Text
vcpu_key = 118 ∷ 99 ∷ 112 ∷ 117 ∷ 95 ∷ 99 ∷ 111 ∷ 117 ∷ 110 ∷ 116 ∷ []

-- "mem_size_mib"
abbrev pub mem_key : Text
mem_key = 109 ∷ 101 ∷ 109 ∷ 95 ∷ 115 ∷ 105 ∷ 122 ∷ 101 ∷ 95 ∷ 109 ∷ 105 ∷ 98 ∷ []

-- "kernel_image_path"
abbrev pub kernel_key : Text
kernel_key =
    107 ∷ 101 ∷ 114 ∷ 110 ∷ 101 ∷ 108 ∷ 95 ∷ 105 ∷ 109 ∷ 97 ∷ 103 ∷ 101 ∷ 95 ∷ 112 ∷ 97 ∷ 116 ∷ 104
    ∷ []

-- "boot_args"
abbrev pub args_key : Text
args_key = 98 ∷ 111 ∷ 111 ∷ 116 ∷ 95 ∷ 97 ∷ 114 ∷ 103 ∷ 115 ∷ []

-- "drive_id"
abbrev pub drive_key : Text
drive_key = 100 ∷ 114 ∷ 105 ∷ 118 ∷ 101 ∷ 95 ∷ 105 ∷ 100 ∷ []

-- "path_on_host"
abbrev pub host_path_key : Text
host_path_key = 112 ∷ 97 ∷ 116 ∷ 104 ∷ 95 ∷ 111 ∷ 110 ∷ 95 ∷ 104 ∷ 111 ∷ 115 ∷ 116 ∷ []

-- "is_root_device"
abbrev pub root_key : Text
root_key = 105 ∷ 115 ∷ 95 ∷ 114 ∷ 111 ∷ 111 ∷ 116 ∷ 95 ∷ 100 ∷ 101 ∷ 118 ∷ 105 ∷ 99 ∷ 101 ∷ []

-- "is_read_only"
abbrev pub read_only_key : Text
read_only_key = 105 ∷ 115 ∷ 95 ∷ 114 ∷ 101 ∷ 97 ∷ 100 ∷ 95 ∷ 111 ∷ 110 ∷ 108 ∷ 121 ∷ []

-- "guest_cid"
abbrev pub cid_key : Text
cid_key = 103 ∷ 117 ∷ 101 ∷ 115 ∷ 116 ∷ 95 ∷ 99 ∷ 105 ∷ 100 ∷ []

-- "uds_path"
abbrev pub uds_key : Text
uds_key = 117 ∷ 100 ∷ 115 ∷ 95 ∷ 112 ∷ 97 ∷ 116 ∷ 104 ∷ []

-- "iface_id"
abbrev pub iface_key : Text
iface_key = 105 ∷ 102 ∷ 97 ∷ 99 ∷ 101 ∷ 95 ∷ 105 ∷ 100 ∷ []

-- "host_dev_name"
abbrev pub dev_key : Text
dev_key = 104 ∷ 111 ∷ 115 ∷ 116 ∷ 95 ∷ 100 ∷ 101 ∷ 118 ∷ 95 ∷ 110 ∷ 97 ∷ 109 ∷ 101 ∷ []

-- "guest_mac"
abbrev pub mac_key : Text
mac_key = 103 ∷ 117 ∷ 101 ∷ 115 ∷ 116 ∷ 95 ∷ 109 ∷ 97 ∷ 99 ∷ []

-- "mem_file_path"
abbrev pub mem_file_key : Text
mem_file_key = 109 ∷ 101 ∷ 109 ∷ 95 ∷ 102 ∷ 105 ∷ 108 ∷ 101 ∷ 95 ∷ 112 ∷ 97 ∷ 116 ∷ 104 ∷ []

-- "snapshot_path"
abbrev pub snapshot_key : Text
snapshot_key = 115 ∷ 110 ∷ 97 ∷ 112 ∷ 115 ∷ 104 ∷ 111 ∷ 116 ∷ 95 ∷ 112 ∷ 97 ∷ 116 ∷ 104 ∷ []

-- "snapshot_type"
abbrev pub type_key : Text
type_key = 115 ∷ 110 ∷ 97 ∷ 112 ∷ 115 ∷ 104 ∷ 111 ∷ 116 ∷ 95 ∷ 116 ∷ 121 ∷ 112 ∷ 101 ∷ []

-- "Full"
abbrev pub full_word : Text
full_word = 70 ∷ 117 ∷ 108 ∷ 108 ∷ []

-- "mem_backend"
abbrev pub backend_key : Text
backend_key = 109 ∷ 101 ∷ 109 ∷ 95 ∷ 98 ∷ 97 ∷ 99 ∷ 107 ∷ 101 ∷ 110 ∷ 100 ∷ []

-- "backend_type"
abbrev pub backend_type_key : Text
backend_type_key = 98 ∷ 97 ∷ 99 ∷ 107 ∷ 101 ∷ 110 ∷ 100 ∷ 95 ∷ 116 ∷ 121 ∷ 112 ∷ 101 ∷ []

-- "backend_path"
abbrev pub backend_path_key : Text
backend_path_key = 98 ∷ 97 ∷ 99 ∷ 107 ∷ 101 ∷ 110 ∷ 100 ∷ 95 ∷ 112 ∷ 97 ∷ 116 ∷ 104 ∷ []

-- "resume_vm"
abbrev pub resume_key : Text
resume_key = 114 ∷ 101 ∷ 115 ∷ 117 ∷ 109 ∷ 101 ∷ 95 ∷ 118 ∷ 109 ∷ []

-- "File"
abbrev pub file_word : Text
file_word = 70 ∷ 105 ∷ 108 ∷ 101 ∷ []

-- "Uffd"
abbrev pub uffd_word : Text
uffd_word = 85 ∷ 102 ∷ 102 ∷ 100 ∷ []

-- "/machine-config"
abbrev pub machine_path : Text
machine_path =
    47 ∷ 109 ∷ 97 ∷ 99 ∷ 104 ∷ 105 ∷ 110 ∷ 101 ∷ 45 ∷ 99 ∷ 111 ∷ 110 ∷ 102 ∷ 105 ∷ 103 ∷ []

-- "/boot-source"
abbrev pub boot_path : Text
boot_path = 47 ∷ 98 ∷ 111 ∷ 111 ∷ 116 ∷ 45 ∷ 115 ∷ 111 ∷ 117 ∷ 114 ∷ 99 ∷ 101 ∷ []

-- "/drives/"
abbrev pub drives_path : Text
drives_path = 47 ∷ 100 ∷ 114 ∷ 105 ∷ 118 ∷ 101 ∷ 115 ∷ 47 ∷ []

-- "/vsock"
abbrev pub vsock_path : Text
vsock_path = 47 ∷ 118 ∷ 115 ∷ 111 ∷ 99 ∷ 107 ∷ []

-- "/network-interfaces/"
abbrev pub network_path : Text
network_path =
    47 ∷ 110 ∷ 101 ∷ 116 ∷ 119 ∷ 111 ∷ 114 ∷ 107 ∷ 45 ∷ 105 ∷ 110 ∷ 116 ∷ 101 ∷ 114 ∷ 102 ∷ 97 ∷ 99
    ∷ 101 ∷ 115 ∷ 47 ∷ []

-- "/actions"
abbrev pub actions_path : Text
actions_path = 47 ∷ 97 ∷ 99 ∷ 116 ∷ 105 ∷ 111 ∷ 110 ∷ 115 ∷ []

-- "/vm"
abbrev pub vm_path : Text
vm_path = 47 ∷ 118 ∷ 109 ∷ []

-- "/snapshot/create"
abbrev pub create_path : Text
create_path =
    47 ∷ 115 ∷ 110 ∷ 97 ∷ 112 ∷ 115 ∷ 104 ∷ 111 ∷ 116 ∷ 47 ∷ 99 ∷ 114 ∷ 101 ∷ 97 ∷ 116 ∷ 101 ∷ []

-- "/snapshot/load"
abbrev pub load_path : Text
load_path = 47 ∷ 115 ∷ 110 ∷ 97 ∷ 112 ∷ 115 ∷ 104 ∷ 111 ∷ 116 ∷ 47 ∷ 108 ∷ 111 ∷ 97 ∷ 100 ∷ []

-- "{"action_type":"InstanceStart"}"
abbrev pub start_body : Text
start_body =
    123 ∷ 34 ∷ 97 ∷ 99 ∷ 116 ∷ 105 ∷ 111 ∷ 110 ∷ 95 ∷ 116 ∷ 121 ∷ 112 ∷ 101 ∷ 34 ∷ 58 ∷ 34 ∷ 73
    ∷ 110 ∷ 115 ∷ 116 ∷ 97 ∷ 110 ∷ 99 ∷ 101 ∷ 83 ∷ 116 ∷ 97 ∷ 114 ∷ 116 ∷ 34 ∷ 125 ∷ []

-- "{"state":"Paused"}"
abbrev pub pause_body : Text
pause_body =
    123 ∷ 34 ∷ 115 ∷ 116 ∷ 97 ∷ 116 ∷ 101 ∷ 34 ∷ 58 ∷ 34 ∷ 80 ∷ 97 ∷ 117 ∷ 115 ∷ 101 ∷ 100 ∷ 34
    ∷ 125 ∷ []

-- "{"state":"Resumed"}"
abbrev pub resume_body : Text
resume_body =
    123 ∷ 34 ∷ 115 ∷ 116 ∷ 97 ∷ 116 ∷ 101 ∷ 34 ∷ 58 ∷ 34 ∷ 82 ∷ 101 ∷ 115 ∷ 117 ∷ 109 ∷ 101 ∷ 100
    ∷ 34 ∷ 125 ∷ []

-- "{"action_type":"SendCtrlAltDel"}"
abbrev pub shutdown_body : Text
shutdown_body =
    123 ∷ 34 ∷ 97 ∷ 99 ∷ 116 ∷ 105 ∷ 111 ∷ 110 ∷ 95 ∷ 116 ∷ 121 ∷ 112 ∷ 101 ∷ 34 ∷ 58 ∷ 34 ∷ 83
    ∷ 101 ∷ 110 ∷ 100 ∷ 67 ∷ 116 ∷ 114 ∷ 108 ∷ 65 ∷ 108 ∷ 116 ∷ 68 ∷ 101 ∷ 108 ∷ 34 ∷ 125 ∷ []

-- "HTTP "
abbrev pub http_word : Text
http_word = 72 ∷ 84 ∷ 84 ∷ 80 ∷ 32 ∷ []
