-- ===== src/Hostd/Restore/Holdings.antt =====
-- crates/hostd/src/migrate.rs: what the target still holds when `receive_and_restore` ends.
use sleepwalk.Prelude.{Bool, true, false, Option, none, some, ◌≡◌, refl, arith}
use sleepwalk.Prelude.Results.{Result, ok, err, map_err, from_result, ◌>>=◌}
use sleepwalk.Proto.Ids.{Text, VmId}
use sleepwalk.Hostd.Net.{NetId}
use sleepwalk.Hostd.Restore.{
  Target, add_tap, set_master, set_up, create_tap, RestoreError, RestoredVm, Held, nothing, State,
  plumb, make_tap, parse_and_tap, attempt, finish, start, receive_and_restore, teardown_restored,
  restore_target, work_dir, transfer, net_read, net_parse, uffd, process, firecracker, file_count,
}

abbrev pub networked : Option NetId → Bool
networked none = false
networked (some net) = true

abbrev pub only_work : Held
only_work = record { work = true; tap = false; server = false; process = false }

abbrev pub only_tap : Held
only_tap = record { work = false; tap = true; server = false; process = false }

-- What an error leaves behind, where `n` says whether a network identity came with the snapshot.
abbrev pub LeftBy : {E : Type 0} → Bool → RestoreError E → Held → Type 0
LeftBy n (work_dir e) h = h ≡ nothing
LeftBy n (transfer e) h = h ≡ only_work
LeftBy n (file_count k) h = h ≡ only_work
LeftBy n (net_read e) h = h ≡ only_work
LeftBy n (net_parse e) h = h ≡ only_work
LeftBy n (RestoreError.tap add_tap e) h = h ≡ nothing
LeftBy n (RestoreError.tap set_master e) h = h ≡ only_tap
LeftBy n (RestoreError.tap set_up e) h = h ≡ only_tap
LeftBy n (uffd e) h = h ≡ record only_work { tap = n }
LeftBy n (process e) h = h ≡ record only_work { tap = n; server = true }
LeftBy n (firecracker e) h = h ≡ nothing

module _ (t : Target) where
  abbrev pub Kept : Bool → Result RestoredVm (RestoreError t.Error) × State t → Type 0
  Kept n (ok vm, (w, h)) =
      (networked vm.net ≡ n) × (h ≡ record { work = true; tap = n; server = true; process = true })
  Kept n (err e, (w, h)) = LeftBy n e h

  abbrev plumbed : Option NetId → Held
  plumbed net = record only_work { tap = networked net }

  finish-Kept :
      (id : VmId) (net : Option NetId) (w : t.World)
      → Kept (networked net) (
          finish t id net
            (w, record { work = true; tap = networked net; server = true; process = true }))
  unfolding finish
  finish-Kept id none w = ground arith
  finish-Kept id (some net) w = ground arith

  start-Kept :
      (id : VmId) (net : Option NetId) (w : t.World)
      → Kept (networked net) (start t id net (w, plumbed net))
  unfolding start
  start-Kept id net w =
      let w1 : t.World = t.start_server (t.bind_uffd w).1 in
      ground (arith, finish-Kept id net (t.spawn w1).1)

  -- With the work dir in place.
  abbrev continued :
      VmId
      → Result (Option NetId) (RestoreError t.Error) × State t
      → Result RestoredVm (RestoreError t.Error) × State t
  continued id (r, s) = elim r [ ok net ↦ start t id net s | err e ↦ (err e, s) ]

  parsed-Kept :
      (id : VmId) (r : Result NetId t.Error) (w : t.World)
      → Kept true (continued id ((from_result (map_err net_parse r) >>= make_tap t) (w, only_work)))
  unfolding create_tap
  parsed-Kept id (ok net) w =
      let w1 : t.World = (t.tap_command add_tap net.tap w).1 in
      let w2 : t.World = (t.tap_command set_master net.tap w1).1 in
      ground (arith, start-Kept id (some net) (t.tap_command set_up net.tap w2).1)
  parsed-Kept id (err e) w = refl

  read-Kept :
      (id : VmId) (r : Result Text t.Error) (w : t.World)
      → Kept true
          (continued id (((λ s. (map_err net_read r, s)) >>= parse_and_tap t) (w, only_work)))
  read-Kept id (ok bytes) w = parsed-Kept id (t.parse_net bytes) w
  read-Kept id (err e) w = refl

  plumb_of :
      (id : VmId) (w : t.World) (b : Bool)
      → Kept b (
          continued id (elim b [
            | true ↦ (attempt t net_read t.read_net >>= parse_and_tap t) (w, only_work)
            | false ↦ (ok none, (w, only_work))
          ]))
  plumb_of id w true = read-Kept id (t.read_net w).0 (t.read_net w).1
  plumb_of id w false = start-Kept id none w

  plumb-Kept :
      (id : VmId) (w : t.World) → Kept (t.net_exists w) (continued id (plumb t (w, only_work)))
  unfolding plumb
  plumb-Kept id w = plumb_of id w (t.net_exists w)

  -- The world once the snapshot is there.
  abbrev pub received : t.World → t.World
  received w = (t.recv_snapshot (t.create_work w).1).1

  -- What the target holds in the end: if the VM is restored, its work dir, its page server, its process
  -- and, if it has a network, its tap; and otherwise never a process, and nothing at all if the work
  -- dir could not be made, the tap could not be added or the snapshot did not load, the tap alone if it
  -- was added and could not be attached or raised, the work dir if the
  -- transfer or the network identity was bad, the work dir and the tap of a VM with a network if the
  -- page server could not be bound, and the running page server besides if Firecracker did not start.
  pub receive_and_restore-Kept :
      (id : VmId) (w : t.World)
      → Kept (t.net_exists (received w)) (receive_and_restore t id (w, nothing))
  unfolding receive_and_restore
  receive_and_restore-Kept id w =
      let w1 : t.World = (t.create_work w).1 in
      let w2 : t.World = (t.recv_snapshot w1).1 in ground (arith, plumb-Kept id w2)

  abbrev pub Gone : Bool → Result (Unit {0}) (RestoreError t.Error) × State t → Type 0
  Gone n (ok _, (w, h)) = h ≡ nothing
  Gone n (err e, (w, h)) = LeftBy n e h

  -- The one-shot restore of the benchmark holds nothing if it succeeds, and what the restore has left
  -- behind if it fails.
  pub restore_target-Gone :
      (id : VmId) (w : t.World)
      → Gone (t.net_exists (received w)) (restore_target t id (w, nothing))
  unfolding restore_target teardown_restored
  restore_target-Gone id w = ground (arith, receive_and_restore-Kept id w)
