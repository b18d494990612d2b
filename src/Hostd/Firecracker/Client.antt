-- ===== src/Hostd/Firecracker/Client.antt =====
-- crates/hostd/src/firecracker.rs: the methods of `impl FirecrackerApi for Firecracker`.
use sleepwalk.Prelude.{◌++◌}
use sleepwalk.Hostd.Firecracker.Words.{
  machine_path, boot_path, drives_path, vsock_path, network_path, actions_path, vm_path,
  create_path, load_path, start_body, pause_body, resume_body, shutdown_body,
}
use sleepwalk.Hostd.Firecracker.{
  Http, Call, Op, put, patch, MachineConfig, BootSource, Drive, VsockConfig, NetworkConfig,
  SnapshotTarget, SnapshotSource, send_json, send_fixed, machine_json, boot_json, drive_json,
  vsock_json, network_json, target_json, source_json,
}

module _ (h : Http) where
  unfoldable pub configure_machine : MachineConfig → Call h
  configure_machine cfg = send_json h Op.configure_machine machine_path (machine_json cfg)

  unfoldable pub configure_boot_source : BootSource → Call h
  configure_boot_source src = send_json h Op.configure_boot_source boot_path (boot_json src)

  unfoldable pub configure_drive : Drive → Call h
  configure_drive drive =
      send_json h Op.configure_drive (drives_path ++ drive.drive_id) (drive_json drive)

  unfoldable pub configure_vsock : VsockConfig → Call h
  configure_vsock cfg = send_json h Op.configure_vsock vsock_path (vsock_json cfg)

  unfoldable pub configure_network : NetworkConfig → Call h
  configure_network cfg =
      send_json h Op.configure_network (network_path ++ cfg.iface_id) (network_json cfg)

  unfoldable pub boot : Call h
  boot = send_fixed h Op.boot put actions_path start_body

  unfoldable pub pause : Call h
  pause = send_fixed h Op.pause patch vm_path pause_body

  unfoldable pub resume : Call h
  resume = send_fixed h Op.resume patch vm_path resume_body

  unfoldable pub shutdown : Call h
  shutdown = send_fixed h Op.shutdown put actions_path shutdown_body

  unfoldable pub create_snapshot : SnapshotTarget → Call h
  create_snapshot target = send_json h Op.create_snapshot create_path (target_json target)

  unfoldable pub load_snapshot : SnapshotSource → Call h
  load_snapshot source = send_json h Op.load_snapshot load_path (source_json source)
