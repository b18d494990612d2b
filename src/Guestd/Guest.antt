-- ===== src/Guestd/Guest.antt =====
-- crates/guestd/src/guest.rs: the supervisor. Each method of `Guest` is a method in the sense of
-- Prelude/Results: a failed send returns the state as it stood at that point. The counter `queued`
-- is a `u32` that wraps, as in a release build.
pub mod Calls
pub mod Wire
pub mod Turns
pub mod Gate
use sleepwalk.Prelude.{
  ℕ, ◌+◌, ◌-◌, ◌%◌, ◌^◌, [], Bool, true, false, Option, none, some, arith, ◌==◌, if◌then◌else◌,
}
use sleepwalk.Prelude.Results.{
  Result, ok, err, map_err, ok_or, Method, pure, fail, gets, modify, from_result, fail_if, ◌>>=◌,
  ◌>>◌,
}
use sleepwalk.Proto.Ids.{VmId, GuestdVersion, TurnId, Timestamp, first, next}
use sleepwalk.Proto.Vsock.{
  GuestToHost, HostToGuest, Env, hello, turn_started, turn_ended, drain_ack, resumed, secrets,
  drain_request, drain_cancel, run_turn,
}
use sleepwalk.Guestd.Channel.{GuestChannel, ChannelError}

pub data StartOutcome : Type 0 where
  started : TurnId → StartOutcome
  queued : StartOutcome

pub data GuestError : Type 0 where
  channel : ChannelError → GuestError
  unexpected_handshake : GuestError
  turn_in_progress : TurnId → GuestError
  no_turn_in_flight gated_replay : GuestError

pub record Guest (C : Type 0) : Type 0 where
  pub vm_id : VmId
  pub version : GuestdVersion
  pub chan : C
  pub env : Env
  pub next_turn : TurnId
  pub in_flight : Option TurnId
  pub gated : Bool
  pub backlog : ℕ

module _ (ch : GuestChannel) where
  abbrev Op : Type 0 → Type 0
  Op A = Method (Guest ch.Conn) GuestError A

  -- `Guest::new`
  unfoldable pub new : VmId → GuestdVersion → ch.Conn → Guest ch.Conn
  new vm_id version chan = record {
    vm_id = vm_id;
    version = version;
    chan = chan;
    env = [];
    next_turn = first;
    in_flight = none;
    gated = false;
    backlog = 0;
  }

  -- `self.chan.send(..).await?`
  abbrev send : GuestToHost → Op (Unit {0})
  send m g = let (r, c) = ch.send m g.chan in (map_err channel r, record g { chan = c })

  -- `self.chan.recv().await?`
  abbrev recv : Op HostToGuest
  recv g = let (r, c) = ch.recv g.chan in (map_err channel r, record g { chan = c })

  unfoldable pub take_secrets : HostToGuest → Op (Unit {0})
  take_secrets (secrets env) = modify λ g. record g { env = env }
  take_secrets _ = fail unexpected_handshake

  -- `Guest::handshake`
  unfoldable pub handshake : Op (Unit {0})
  unfolding take_secrets
  handshake = do g ← gets λ g. g; send (hello g.vm_id g.version); m ← recv; take_secrets m

  begin_turn : Timestamp → Op TurnId
  begin_turn now = do
    turn_id ← gets λ g. g.next_turn
    modify λ g. record g { next_turn = next g.next_turn; in_flight = some turn_id }
    send (turn_started turn_id now)
    pure turn_id

  -- The early return of every method that starts a turn.
  abbrev refuse_overlap : Op (Unit {0})
  refuse_overlap g = elim g.in_flight [ some t ↦ (err (turn_in_progress t), g) | none ↦ (ok tt, g) ]

  abbrev defer : Op StartOutcome
  defer = do modify λ g. record g { backlog = (g.backlog + 1) % 2 ^ 32 }; pure queued

  -- `Guest::start_turn`
  unfoldable pub start_turn : Timestamp → Op StartOutcome
  unfolding begin_turn
  start_turn now = do
    refuse_overlap
    gated ← gets λ g. g.gated
    if gated then defer else (begin_turn now >>= λ t. pure (started t))

  run_now : TurnId → Timestamp → Op StartOutcome
  run_now turn_id now = do
    modify λ g. record g { in_flight = some turn_id }
    send (turn_started turn_id now)
    send (turn_ended turn_id now)
    modify λ g. record g { in_flight = none }
    pure (started turn_id)

  -- `Guest::run_turn`
  unfoldable pub run_commanded : TurnId → Timestamp → Op StartOutcome
  unfolding run_now
  run_commanded turn_id now = do
    refuse_overlap
    gated ← gets λ g. g.gated
    if gated then defer else run_now turn_id now

  -- `Guest::begin_observed_turn`
  unfoldable pub begin_observed_turn : Timestamp → Op TurnId
  unfolding begin_turn
  begin_observed_turn now = do refuse_overlap; begin_turn now

  replay_one : Timestamp → Op (Option TurnId)
  unfolding begin_turn
  replay_one now = do
    modify λ g. record g { backlog = g.backlog - 1 }
    t ← begin_turn now
    pure (some t)

  -- `Guest::replay_next`
  unfoldable pub replay_next : Timestamp → Op (Option TurnId)
  unfolding replay_one
  replay_next now = do
    refuse_overlap
    gated ← gets λ g. g.gated
    fail_if gated gated_replay
    waiting ← gets λ g. g.backlog
    if waiting == 0 then pure none else replay_one now

  -- `Guest::resume`
  unfoldable pub resume : Timestamp → Op (Unit {0})
  resume now = do send (resumed now); modify λ g. record g { gated = false }

  -- `Guest::end_turn`
  unfoldable pub end_turn : Timestamp → Op (Unit {0})
  end_turn now = do
    running ← gets λ g. g.in_flight
    turn_id ← from_result (ok_or running no_turn_in_flight)
    send (turn_ended turn_id now)
    modify λ g. record g { in_flight = none }

  -- `Guest::handle`
  unfoldable pub handle : HostToGuest → Timestamp → Op (Unit {0})
  unfolding run_commanded
  handle (run_turn turn_id) now = run_commanded turn_id now >>= λ _. pure tt
  handle (drain_request deadline) now = do
    modify λ g. record g { gated = true }
    running ← gets λ g. g.in_flight
    send (drain_ack running)
  handle drain_cancel now = modify λ g. record g { gated = false }
  handle (secrets env) now = modify λ g. record g { env = env }
  handle HostToGuest.ping now = send GuestToHost.pong
  handle HostToGuest.pong now = pure tt
