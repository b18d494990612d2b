-- ===== src/System/Session.antt =====
-- A guest daemon behind the link of a host daemon: crates/guestd/src/guest.rs as the peer of
-- crates/hostd/src/guestlink.rs and of `migrate_running` in crates/hostd/src/migrate.rs. What the
-- guest has sent and the host has not read is the outbox of its channel. Before each effect of the
-- host the guest makes the calls of one batch of a schedule, so that a schedule is an interleaving
-- of the two; a host's message reaches the guest when the batch before it is done. Every effect of
-- the host may fail at any time, by the interface `Faults`. What the supervisor is like when the
-- snapshot is taken is kept. The host drops its link before that; when a host-driven guest daemon has
-- noticed, it has no supervisor, and so starts no turn, until it gets another connection.
pub mod Gate
pub mod Frozen
use sleepwalk.Prelude.{ℕ, ◌+◌, if◌then◌else◌, Bool, true, false, Option, none, some, List, [], ◌∷◌}
use sleepwalk.Prelude.Results.{Result, ok, err, Method}
use sleepwalk.Proto.Ids.{Text, Timestamp}
use sleepwalk.Proto.Vsock.{GuestToHost, HostToGuest}
use sleepwalk.Guestd.Channel.{PseudoChannel, pseudo_channel}
use sleepwalk.Guestd.Guest.{Guest, handle}
use sleepwalk.Guestd.Guest.Calls.{Call, history}
use sleepwalk.Hostd.Migrate.{Host}

pub record Session : Type 0 where
  pub guest : Guest PseudoChannel
  pub schedule : List (List Call)
  pub frozen : Option (Option (Guest PseudoChannel))
  pub ticks : ℕ

abbrev pub run_batch : List (List Call) → Session → Session
run_batch [] s = record s { ticks = s.ticks + 1 }
run_batch (batch ∷ later) s = record s {
  guest = (history pseudo_channel batch s.guest).1;
  schedule = later;
  ticks = s.ticks + 1;
}

-- The next batch of the guest's calls.
unfoldable pub tick : Session → Session
tick s = run_batch s.schedule s

-- Why an effect of the host failed.
pub data Trouble : Type 0 where
  nothing_sent refused : Trouble

abbrev pub leave_unread : List GuestToHost → Session → Session
leave_unread ms s = record s {
  guest = record (s.guest) { chan = record (s.guest.chan) { outbox = ms } };
}

abbrev pub take_first : List GuestToHost → Session → Result GuestToHost Trouble × Session
take_first [] s = (err nothing_sent, s)
take_first (m ∷ ms) s = (ok m, leave_unread ms s)

-- The host reads the guest's oldest message.
unfoldable pub take_message : Session → Result GuestToHost Trouble × Session
take_message s = take_first s.guest.chan.outbox s

unfoldable pub receive : Timestamp → HostToGuest → Session → Session
receive now m s = record s { guest = (handle pseudo_channel m now s.guest).1 }

-- What becomes of a message of the host's: it arrives, it is lost and the host is told so, or it
-- arrives and the host is told that it was lost.
pub data Delivery : Type 0 where
  arrives lost arrives_unknown : Delivery

-- How the snapshot and the transfer end: well, before the snapshot is taken, or after.
pub data SnapshotEnd : Type 0 where
  sent failed_before failed_after : SnapshotEnd

-- What fails, and when, in ticks.
pub record Faults : Type 0 where
  pub connects : ℕ → Bool
  pub reads : ℕ → Bool
  pub delivers : ℕ → Delivery
  pub writes_path : ℕ → Bool
  pub writes_net : ℕ → Bool
  pub snapshots : ℕ → SnapshotEnd
  pub hung_up : ℕ → Bool  -- the guest daemon has noticed that the link is closed

module _ (now : Timestamp) (f : Faults) where
  abbrev pub tried : Bool → Result (Unit {0}) Trouble
  tried true = ok tt
  tried false = err refused

  abbrev pub read : Bool → Session → Result GuestToHost Trouble × Session
  read true s = take_message s
  read false s = (err refused, s)

  abbrev pub deliver : Delivery → HostToGuest → Session → Result (Unit {0}) Trouble × Session
  deliver arrives m s = (ok tt, receive now m s)
  deliver lost m s = (err refused, s)
  deliver arrives_unknown m s = (err refused, receive now m s)

  abbrev pub freeze : Session → Session
  freeze s = record s { frozen = some (if f.hung_up s.ticks then none else some s.guest) }

  abbrev pub snapshot : SnapshotEnd → Session → Result (Unit {0}) Trouble × Session
  snapshot sent s = (ok tt, freeze s)
  snapshot failed_before s = (err refused, s)
  snapshot failed_after s = (err refused, freeze s)

  abbrev pub session_host : Host
  session_host = record {
    World = Session;
    Error = Trouble;
    Timing = Unit {0};
    connect_tcp = λ ip s. (tried (f.connects s.ticks), tick s);
    connect_vsock = λ uds s. (tried (f.connects s.ticks), tick s);
    recv = λ s. read (f.reads s.ticks) (tick s);
    send = λ m s. deliver (f.delivers s.ticks) m (tick s);
    write_vsock_path = λ vm s. (tried (f.writes_path s.ticks), tick s);
    write_net_identity = λ vm s. (tried (f.writes_net s.ticks), tick s);
    snapshot_and_send = λ vm addr s. snapshot (f.snapshots s.ticks) (tick s);
    kill = λ vm s. s;
  }
