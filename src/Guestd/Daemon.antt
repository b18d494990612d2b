-- ===== src/Guestd/Daemon.antt =====
-- crates/guestd/src/bin/guestd.rs: the loops that serve a host and read the wrapped process. Each
-- loop ends where the source breaks out of it. A loop over a connection has a list beside it that
-- stands for the other side of each wait: the times at which messages come in, or what the task
-- that reads the process has read until then; it stops early, with `false`, if that list ends.
pub mod Sessions
pub mod Answers
pub mod Supervise
mod Examples
use sleepwalk.Prelude.{Bool, true, false, Option, none, some, List, [], ◌∷◌, ◌++◌, if◌then◌else◌}
use sleepwalk.Prelude.Results.{Result, ok, err}
use sleepwalk.Proto.Ids.{Text, VmId, GuestdVersion, Timestamp}
use sleepwalk.Proto.Vsock.{
  GuestToHost, HostToGuest, drain_ack, secrets, drain_request, drain_cancel, run_turn,
}
use sleepwalk.Guestd.Channel.{GuestChannel, ChannelError}
use sleepwalk.Guestd.Guest.{Guest, new, handshake, handle}
use sleepwalk.Guestd.Wrap.{TurnSignal, WrapConfig, TurnTracker, classify, apply, in_flight}

-- What `next_line` on the stdout of the process comes back with.
pub data NextLine : Type 0 where
  line : Text → NextLine
  closed broken : NextLine

-- The task that reads the process: the tracker it shares, and the lines it has forwarded to the log.
pub record Reader : Type 0 where
  pub tracker : TurnTracker
  pub log : List Text
  pub reading : Bool

abbrev act : Option TurnSignal → Text → Reader → Reader
act (some sig) l r = record r { tracker = apply sig r.tracker }
act none l r = record r { log = r.log ++ l ∷ [] }

-- One turn of the loop in `spawn_reader`.
unfoldable pub read_next : WrapConfig → NextLine → Reader → Reader
read_next cfg (line l) r = act (classify cfg l) l r
read_next cfg closed r = record r { reading = false }
read_next cfg broken r = record r { reading = false }

-- `spawn_reader`, as far as it has come.
unfoldable pub read_lines : WrapConfig → List NextLine → Reader → Reader
read_lines cfg [] r = r
read_lines cfg (n ∷ ns) r =
    let rest = read_lines cfg ns (read_next cfg n r) in if r.reading then rest else r

module _ (ch : GuestChannel) where
  -- What `serve_wrap_messages` sends for a message.
  unfoldable pub answer :
      TurnTracker → HostToGuest → ch.Conn → Result (Unit {0}) ChannelError × ch.Conn
  answer t (drain_request deadline) = ch.send (drain_ack (in_flight t))
  answer t HostToGuest.ping = ch.send GuestToHost.pong
  answer t _ = λ c. (ok tt, c)

  -- `serve_wrap_messages`; the reader goes on with one list of lines during each wait for a message.
  unfoldable pub serve_wrap_messages :
      WrapConfig → List (List NextLine) → Reader → ch.Conn → Bool × (Reader × ch.Conn)
  serve_wrap_messages cfg [] r c = (false, (r, c))
  serve_wrap_messages cfg (ns ∷ later) r c =
      let r' = read_lines cfg ns r in
      let (got, c') = ch.recv c in
      elim got [
        | err e ↦ (true, (r', c'))
        | ok m ↦
            let (sent, c'') = answer r'.tracker m c' in
            let rest = serve_wrap_messages cfg later r' c'' in
            elim sent [ ok _ ↦ rest | err e ↦ (true, (r', c'')) ]
      ]

  -- `serve_messages_only`
  unfoldable pub serve_messages_only : List Timestamp → Guest ch.Conn → Bool × Guest ch.Conn
  serve_messages_only [] g = (false, g)
  serve_messages_only (now ∷ later) g =
      let (got, c) = ch.recv g.chan in
      elim got [
        | err e ↦ (true, record g { chan = c })
        | ok m ↦
            let (handled, g') = handle ch m now (record g { chan = c }) in
            let rest = serve_messages_only later g' in
            elim handled [ ok _ ↦ rest | err e ↦ (true, g') ]
      ]

  -- What came of a bind and accept in `run_host_driven`: a connection, with the id that is drawn for
  -- it and the times of its messages, or none.
  pub data Accept : Type 0 where
    connected : VmId → List Timestamp → ch.Conn → Accept
    failed timed_out : Accept

  -- One turn of the loop in `run_host_driven`: the guest of that connection, if there was one.
  unfoldable pub host_session : GuestdVersion → Accept → Option (Bool × Guest ch.Conn)
  host_session version failed = none
  host_session version timed_out = none
  host_session version (connected vm times chan) =
      let (met, g) = handshake ch (new ch vm version chan) in
      let served = serve_messages_only times g in
      elim met [ ok _ ↦ some served | err e ↦ some (true, g) ]

  -- `run_host_driven`: the guest of each connection.
  unfoldable pub run_host_driven :
      GuestdVersion → List Accept → List (Option (Bool × Guest ch.Conn))
  run_host_driven version [] = []
  run_host_driven version (a ∷ later) = host_session version a ∷ run_host_driven version later

  -- The inner turn of the loop in `serve_tcp_drain`.
  unfoldable pub tcp_session :
      GuestdVersion
      → VmId
      → WrapConfig
      → List (List NextLine)
      → Reader
      → ch.Conn
      → Bool × (Reader × ch.Conn)
  tcp_session version vm cfg reads r chan =
      let (met, g) = handshake ch (new ch vm version chan) in
      let served = serve_wrap_messages cfg reads r g.chan in
      elim met [ ok _ ↦ served | err e ↦ (true, (r, g.chan)) ]
