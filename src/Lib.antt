-- ===== src/Lib.antt =====
-- A verification library for sleepwalk, which migrates running agent VMs between hosts without cutting
-- a turn of the agent short.
--
-- The program. A rebalancer (crates/rebalancer) watches the pressure of the hosts, picks a VM to move,
-- and drives the migration through effects on the host daemons. A host daemon (crates/hostd) runs the
-- VMs under Firecracker, decides from several layers of signals whether a VM is quiescent, and streams
-- its snapshot to the other host. A guest daemon (crates/guestd) inside the VM counts the agent's
-- turns, answers drains over vsock, and holds turns back while a drain is on. The three share the
-- identifiers, messages, compatibility rules and migration state machine of crates/proto.
--
-- The files. A module stands for a source file, and its children hold the theorems about it.
--   Prelude            lists, orders, ascending maps (BTreeMap), integers, results and methods, strings
--   Proto/Ids          crates/proto/src/ids.rs
--   Proto/Vsock        crates/proto/src/vsock.rs
--   Proto/Fsm          crates/proto/src/fsm.rs: the typestate is a family indexed by the phase
--   Proto/Compat       crates/proto/src/compat.rs
--   Proto/Wire         crates/proto/src/wire.rs
--   Proto/Lines        the lines of JSON that framing.rs and guestlink.rs both write and read
--   Guestd/Channel     crates/guestd/src/channel.rs and pseudo_channel.rs
--   Guestd/Framing     crates/guestd/src/framing.rs
--   Guestd/Guest       crates/guestd/src/guest.rs: each method of Guest
--   Guestd/Wrap        crates/guestd/src/wrap.rs
--   Guestd/Clock       crates/guestd/src/clock.rs
--   Guestd/Daemon      crates/guestd/src/bin/guestd.rs: its sessions, the reading and the starting of
--                      the wrapped process
--   Hostd/Quiesce      crates/hostd/src/quiesce.rs
--   Hostd/Drain        crates/hostd/src/drain.rs
--   Hostd/Firecracker  crates/hostd/src/firecracker.rs and pseudo_firecracker.rs
--   Hostd/Vm           crates/hostd/src/vm.rs
--   Hostd/Transfer     crates/hostd/src/transfer.rs: the framing, in both directions
--   Hostd/Uffd         crates/hostd/src/uffd.rs: the answers to page faults, the restore handler's loops
--   Hostd/GuestLink    crates/hostd/src/guestlink.rs; its handshake and drain are in Hostd/Migrate
--   Hostd/Net          crates/hostd/src/net.rs
--   Hostd/Migrate      crates/hostd/src/migrate.rs, guestlink.rs, registry.rs, bin/hostd.rs: a VM's way out
--   Hostd/Registry     crates/hostd/src/registry.rs: the spawning of VMs
--   Hostd/Daemon       crates/hostd/src/bin/hostd.rs: routes and queries
--   Hostd/Source       crates/hostd/src/migrate.rs: a VM that is booted to be sent away
--   Hostd/Restore      crates/hostd/src/migrate.rs, registry.rs, bin/hostd.rs: a VM's way in
--   Rebalancer/Placement  crates/rebalancer/src/placement.rs
--   Rebalancer/Executor   crates/rebalancer/src/executor.rs and pseudo_executor.rs
--   Rebalancer/Driver     crates/rebalancer/src/driver.rs
--   Rebalancer/Control    crates/rebalancer/src/control.rs
--   Rebalancer/Client     crates/rebalancer/src/bin/rebalance.rs
--   Harness/Rng           the generator of crates/harness/src/schedule.rs
--   Harness/Chaos         crates/harness/src/chaos.rs: the simulation of turns against a drain
--   System/Fleet          the daemons behind the client of the rebalancer
--   System/Session        a guest behind the link of the host that migrates it
-- Each crate, and some of its parts, has a module Examples with concrete runs.
--
-- State and errors. A method on `&mut self` is a function from the state to a result and a state,
-- so that what it wrote before it failed stays written; async functions are taken as run to their
-- end, one at a time. Traits are records that the definitions take as parameters: GuestChannel,
-- FirecrackerApi, MigrationExecutor, DaemonApi; the host under migrate_running is one as well
-- (Host), and so is the one under a restore (Target) and under a spawning (Machine). Code of other
-- crates is a parameter too: f64 (Float), crc32fast (Crc), userfaultfd (UserFault), files (File),
-- byte streams of tokio (Stream), serde_json (Codec), hyper (Http), its answers to requests (Web, Between), running ip (Shell), the
-- validity of UTF-8, the Display of a UUID.
--
-- Numbers. Integers are the natural numbers; where the source wraps or saturates, so do the
-- definitions: the backlog of the guest wraps at 2^32, turn ids saturate at 2^64 - 1. Durations and
-- timestamps are nanoseconds. A text is the list of its code points, a file name the list of its bytes.
--
-- Loops. The two chunk loops of the transfer get as many turns as there are bytes left, and take at
-- least one byte in each; the loop over received files gets as many turns as the stream has bytes,
-- and takes at least one byte in each, so that without a turn left its first read fails as on an
-- empty stream. A drain waits for as many messages as come before its deadline, which is a
-- parameter. The replay loop of the simulation gets one turn more than the backlog counts, of which
-- each turn of the loop takes one. The loops of the daemons over messages and
-- connections run over the list of what comes in, and stop early if that list ends.
--
-- Not modelled: the spawning of processes in crates/hostd/src/process.rs, the sockets under the
-- channels, metrics, readings of /proc, the HTTP of hyper under the routes and the client, the load
-- generator, the command line, the dropping of a request whose client has gone away, and the remaining
-- binaries, which are input and output around the parts above.

pub mod Prelude
pub mod Proto
pub mod Guestd
pub mod Hostd
pub mod Rebalancer
pub mod Harness
pub mod System
