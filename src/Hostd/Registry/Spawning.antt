-- ===== src/Hostd/Registry/Spawning.antt =====
-- crates/hostd/src/registry.rs: what the host holds, and what the registry says, when `spawn` ends.
use sleepwalk.Prelude.{
  ◌+◌, ◌%◌, ◌^◌, Bool, true, false, List, [], ◌∷◌, ap, Option, none, some, ◌≡◌, refl, arith,
}
use sleepwalk.Prelude.Results.{Result, ok, err, pure, ◌>>=◌, ◌>>◌}
use sleepwalk.Prelude.BTreeMap.{insert}
use sleepwalk.Proto.Ids.{VmId, vm_ord}
use sleepwalk.Hostd.Net.{NetId, NetError, create}
use sleepwalk.Proto.Vsock.{Env}
use sleepwalk.Hostd.Firecracker.Commands.{Command}
use sleepwalk.Hostd.Registry.{
  Machine, shell_of, SpawnError, work_dir, process, firecracker, secrets, network, SpawnedVm,
  Making, unmade, VmRegistry, SpawnOrder, State, plumb_vm, launch, spawn, or_drop, register, making,
  effect, issue_all, deliver_env, deliver_secrets, boot_secrets, boot_commands,
}

abbrev pub has_tap : Option NetId → Bool
has_tap none = false
has_tap (some net) = true

abbrev pub made : Bool → Bool → Making
made t p = record { work = true; tap = t; process = p }

-- What an error leaves behind, where `n` says whether the VM was to have a network.
abbrev pub LeftBy : {E : Type 0} → Bool → SpawnError E → Making → Type 0
LeftBy n (work_dir e) h = h ≡ unmade
LeftBy n (network e) h = h ≡ made false false
LeftBy n (process e) h = h ≡ made n false
LeftBy n (firecracker e) h = h ≡ made n false
LeftBy n (secrets e) h = h ≡ made n false

module _ (m : Machine) (o : SpawnOrder) where
  abbrev entry : Option NetId → SpawnedVm
  entry net = record { id = o.id; vsock_uds = o.vsock_uds; mib = o.mib; net = net }

  abbrev pub Spawned : VmRegistry → Bool → Result VmId (SpawnError m.Error) × State m → Type 0
  Spawned g n (ok id, (g', w, h)) =
      (id ≡ o.id)
      × ((net : Option NetId) × (has_tap net ≡ n)
          × (g'.vms ≡ insert o.id (entry net) g.vms)
          × (h ≡ made n true))
  Spawned g n (err e, (g', w, h)) = (g'.vms ≡ g.vms) × LeftBy n e h

  -- The calls on a live process change the world only, and fail by two kinds of error.
  abbrev Untouched : VmRegistry → Making → Result (Unit {0}) (SpawnError m.Error) × State m → Type 0
  Untouched g h (ok _, (g', w, h')) = (g' ≡ g) × (h' ≡ h)
  Untouched g h (err (firecracker e), (g', w, h')) = (g' ≡ g) × (h' ≡ h)
  Untouched g h (err (secrets e), (g', w, h')) = (g' ≡ g) × (h' ≡ h)
  Untouched g h (err e, s) = ⊥

  deliver-Untouched :
      (env : Option Env) (g : VmRegistry) (w : m.World) (h : Making)
      → Untouched g h (deliver_env m env (g, w, h))
  deliver-Untouched none g w h = (refl, refl)
  deliver-Untouched (some v) g w h = ground arith

  calls-Untouched :
      (cs : List Command) (g : VmRegistry) (w : m.World) (h : Making)
      → Untouched g h ((issue_all m cs >> deliver_secrets m) (g, w, h))
  unfolding deliver_secrets
  calls-Untouched [] g w h = deliver-Untouched (boot_secrets m) g w h
  calls-Untouched (c ∷ cs) g w h = ground (arith, calls-Untouched cs g (m.call c w).1 h)

  ended :
      (g : VmRegistry) (net : Option NetId) (p : Result (Unit {0}) (SpawnError m.Error) × State m)
      (s : State m)
      → Untouched g (made (has_tap net) true) p
      → Spawned g (has_tap net) ((or_drop m (λ _. p) >> register m o net) s)
  ended g net (ok _, (g', w, h)) s u =
      (refl, (net, refl, ap (λ x. insert o.id (entry net) x.vms) u.0, u.1))
  ended g net (err (firecracker e), (g', w, h)) s u =
      (ap (λ x. x.vms) u.0, ap {A = Making} (λ k. record k { process = false }) u.1)
  ended g net (err (secrets e), (g', w, h)) s u =
      (ap (λ x. x.vms) u.0, ap {A = Making} (λ k. record k { process = false }) u.1)
  ended g net (err (work_dir e), (g', w, h)) s u = absurd u
  ended g net (err (process e), (g', w, h)) s u = absurd u
  ended g net (err (network e), (g', w, h)) s u = absurd u

  launch-Spawned :
      (g : VmRegistry) (w : m.World) (net : Option NetId)
      → Spawned g (has_tap net) (launch m o net (g, w, made (has_tap net) false))
  unfolding launch
  launch-Spawned g w net =
      let w1 : m.World = (m.spawn_process w).1 in
      let s1 : State m = (g, w1, made (has_tap net) true) in
      let cs : List Command = boot_commands m o net in
      ground (
        arith,
        ended g net ((issue_all m cs >> deliver_secrets m) s1) s1
            (calls-Untouched cs g w1 (made (has_tap net) true)),
      )

  abbrev continued :
      Result (Option NetId) (SpawnError m.Error) × State m
      → Result VmId (SpawnError m.Error) × State m
  continued (r, s) = elim r [ ok net ↦ launch m o net s | err e ↦ (err e, s) ]

  created_of :
      (g : VmRegistry) (r : Result NetId NetError) (w : m.World)
      → Spawned g true (
          continued (
            (effect m network (λ v. (r, w)) >>= λ net.
            making m (λ k. record k { tap = true }) >> pure (some net))
              (g, w, made false false)))
  created_of g (ok net) w = launch-Spawned g w (some net)
  created_of g (err e) w = (refl, refl)

  plumb-Spawned :
      (b : Bool) (g : VmRegistry) (w : m.World)
      → Spawned g b (continued (plumb_vm m b (g, w, made false false)))
  unfolding plumb_vm
  plumb-Spawned false g w = launch-Spawned g w none
  plumb-Spawned true g w =
      let made_net = create (shell_of m) (g.net_seq % 2 ^ 32) w in
      created_of (record g { net_seq = (g.net_seq + 1) % 2 ^ 64 }) made_net.0 made_net.1

  -- If a VM is spawned, it is in the registry under its id, which is returned, and the host holds its
  -- work dir, its process and, if it was to have a network, its tap. Otherwise the registry has the
  -- same VMs as before and no process is left, but the work dir is, unless it could not be made, and
  -- from the start of the process on the tap as well.
  pub spawn-Spawned :
      (g : VmRegistry) (w : m.World) → Spawned g o.networked (spawn m o (g, w, unmade))
  unfolding spawn
  spawn-Spawned g w = ground (arith, plumb-Spawned o.networked g (m.create_work w).1)
