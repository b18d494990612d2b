-- ===== src/Proto/Vsock.antt =====
-- crates/proto/src/vsock.rs: the messages of the guest protocol, one type for each direction. A
-- duration is its number of nanoseconds.
use sleepwalk.Prelude.{ℕ, Option}
use sleepwalk.Prelude.BTreeMap.{BTreeMap}
use sleepwalk.Proto.Ids.{Text, VmId, GuestdVersion, TurnId, Timestamp}

pub data GuestToHost : Type 0 where
  hello : VmId → GuestdVersion → GuestToHost
  turn_started turn_ended : TurnId → Timestamp → GuestToHost
  drain_ack : Option TurnId → GuestToHost
  resumed : Timestamp → GuestToHost
  ping pong : GuestToHost

-- The environment variables of a `Secrets` message.
abbrev pub Env : Type 0
Env = BTreeMap Text Text

pub data HostToGuest : Type 0 where
  secrets : Env → HostToGuest
  drain_request : ℕ → HostToGuest
  drain_cancel : HostToGuest
  run_turn : TurnId → HostToGuest
  ping pong : HostToGuest
