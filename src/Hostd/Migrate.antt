-- ===== src/Hostd/Migrate.antt =====
-- The way of a running VM out of a host: `drain_to_quiescence` and `migrate_running` of
-- crates/hostd/src/migrate.rs, `handshake` and `drain` of crates/hostd/src/guestlink.rs, the map of
-- crates/hostd/src/registry.rs, and `migrate_send` of crates/hostd/src/bin/hostd.rs for a registered
-- VM. Sockets, files and Firecracker are the interface `Host`; `patience` is how many messages come
-- from the guest before the drain's deadline. The list `torn` holds the VMs torn down, in order.
-- Telemetry, log lines and the parts of an HTTP answer other than its status are left out.
pub mod Custody
pub mod Scripted
use sleepwalk.Prelude.{ℕ, zero, suc, ◌*◌, ◌^◌, Option, none, some, List, [], ◌∷◌, ◌++◌}
use sleepwalk.Prelude.Results.{Result, ok, err, map_err, Method, pure, fail, ◌>>=◌, ◌>>◌}
use sleepwalk.Prelude.BTreeMap.{BTreeMap, get, insert, remove}
use sleepwalk.Proto.Ids.{Text, VmId, TurnId, vm_ord}
use sleepwalk.Proto.Vsock.{
  GuestToHost, HostToGuest, hello, drain_ack, secrets, drain_request, drain_cancel,
}

-- The identity of a `RunningVm` and the addresses under which its guest is reached.
pub record RunningVm : Type 0 where
  pub id : VmId
  pub vsock_uds : Text
  pub net : Option Text

pub record Host : Type 1 where
  pub World : Type 0
  pub Error : Type 0
  pub Timing : Type 0
  pub connect_tcp : Text → Method World Error (Unit {0})
  pub connect_vsock : Text → Method World Error (Unit {0})
  pub recv : Method World Error GuestToHost
  pub send : HostToGuest → Method World Error (Unit {0})
  pub write_vsock_path : RunningVm → Method World Error (Unit {0})
  pub write_net_identity : RunningVm → Method World Error (Unit {0})
  pub snapshot_and_send : RunningVm → Text → Method World Error Timing
  pub kill : RunningVm → World → World

pub data LinkError (E : Type 0) : Type 0 where
  io : E → LinkError E
  expected_hello timed_out : LinkError E

pub data DrainState : Type 0 where
  quiescent busy : DrainState

pub data MigrateOutcome (T : Type 0) : Type 0 where
  moved : T → MigrateOutcome T
  stood_down : RunningVm → MigrateOutcome T

-- The status of an HTTP answer.
pub data Status : Type 0 where
  status_ok conflict not_found internal_error : Status

module _ (h : Host) (drain_deadline patience : ℕ) where
  abbrev Link : Type 0 → Type 0
  Link A = Method h.World (LinkError h.Error) A

  abbrev linked : {A : Type 0} → Method h.World h.Error A → Link A
  linked m w = let (r, w') = m w in (map_err io r, w')

  greet : GuestToHost → Link (Unit {0})
  greet (hello vm version) = linked (h.send (secrets []))
  greet _ = fail expected_hello

  -- `GuestLink::handshake` with no variables.
  unfoldable pub link_handshake : Link (Unit {0})
  unfolding greet
  link_handshake = linked h.recv >>= greet

  -- The loop in `GuestLink::drain`, cut off at the deadline.
  unfoldable pub await_ack : ℕ → Link (Option TurnId)
  await_ack zero = fail timed_out
  await_ack (suc n) = do
    m ← linked h.recv
    elim m [ drain_ack in_flight ↦ pure in_flight | _ ↦ await_ack n ]

  abbrev drain_state : Option TurnId → DrainState
  drain_state none = quiescent
  drain_state (some t) = busy

  -- `GuestLink::drain`
  unfoldable pub link_drain : Link DrainState
  link_drain = do
    linked (h.send (drain_request drain_deadline))
    ack ← await_ack patience
    pure (drain_state ack)

  -- `let _ = link.send(DrainCancel)`: a failure is dropped.
  abbrev reopen : DrainState → Link DrainState
  reopen quiescent w = (ok quiescent, w)
  reopen busy w = (ok busy, (h.send drain_cancel w).1)

  unfoldable pub drain_to_quiescence : Link DrainState
  drain_to_quiescence = do link_handshake; state ← link_drain; reopen state

  abbrev connect : RunningVm → Method h.World h.Error (Unit {0})
  connect vm = elim vm.net [ some ip ↦ h.connect_tcp ip | none ↦ h.connect_vsock vm.vsock_uds ]

  -- Connecting and draining, as `migrate_running` begins.
  unfoldable pub drained : RunningVm → Link DrainState
  drained vm = do linked (connect vm); drain_to_quiescence

  abbrev pub Torn : Type 0
  Torn = h.World × List VmId

  -- `RunningVm::teardown`
  abbrev teardown : RunningVm → Torn → Torn
  teardown vm (w, torn) = (h.kill vm w, torn ++ vm.id ∷ [])

  abbrev write_identity : RunningVm → Method h.World h.Error (Unit {0})
  write_identity vm = elim vm.net [ some ip ↦ h.write_net_identity vm | none ↦ pure tt ]

  -- What follows a drain that reached quiescence: every way out of it tears the VM down.
  unfoldable pub depart : RunningVm → Text → Method Torn h.Error (MigrateOutcome h.Timing)
  depart vm addr (w, torn) =
      let write_and_send : Method h.World h.Error h.Timing =
        h.write_vsock_path vm >>= λ _. write_identity vm >>= λ _. h.snapshot_and_send vm addr in
      let (r, w') = write_and_send w in
      elim r [
        | ok timing ↦ (ok (moved timing), teardown vm (w', torn))
        | err e ↦ (err e, teardown vm (w', torn))
      ]

  -- `migrate_running`
  unfoldable pub migrate_running : RunningVm → Text → Method Torn h.Error (MigrateOutcome h.Timing)
  migrate_running vm addr (w, torn) =
      let (r, w') = drained vm w in
      elim r [
        | ok s ↦ elim s [
          | quiescent ↦ depart vm addr (w', torn)
          | busy ↦ (ok (stood_down vm), (w', torn))
        ]
        | err e ↦ (ok (stood_down vm), (w', torn))
      ]

  -- The daemon's registry with the world and the VMs torn down.
  pub record Daemon : Type 0 where
    pub vms : BTreeMap VmId RunningVm
    pub torn : Torn

  -- `migrate_send` with `?vm=ID`
  unfoldable pub migrate_send : VmId → Text → Daemon → Status × Daemon
  migrate_send id to d = elim (get id d.vms) [
    | none ↦ (not_found, d)
    | some vm ↦
        let vms = remove id d.vms in
        let (r, t) = migrate_running vm to d.torn in
        elim r [
          | ok o ↦ elim o [
            | moved timing ↦ (status_ok, record { vms = vms; torn = t })
            | stood_down kept ↦ (conflict, record { vms = insert kept.id kept vms; torn = t })
          ]
          | err e ↦ (internal_error, record { vms = vms; torn = t })
        ]
  ]
