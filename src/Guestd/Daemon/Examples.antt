-- ===== src/Guestd/Daemon/Examples.antt =====
-- Sessions of the daemon: two host-driven ones, and a wrapped process that prints two turns.
use sleepwalk.Prelude.{ℕ, ◌+◌, true, none, List, [], ◌∷◌, arith}
use sleepwalk.Prelude.Results.{ok}
use sleepwalk.Proto.Ids.{VmId, GuestdVersion, Timestamp, first}
use sleepwalk.Proto.Vsock.{HostToGuest, Env, secrets, drain_request, run_turn}
use sleepwalk.Guestd.Channel.{PseudoChannel, pseudo_channel}
use sleepwalk.Guestd.Wrap.{default_config}
use sleepwalk.Guestd.Daemon.{
  NextLine, line, closed, Accept, connected, timed_out, read_lines, serve_wrap_messages,
  run_host_driven,
}
use sleepwalk.Guestd.Daemon.Sessions.{AllAlone, run_host_driven-AllAlone}
use sleepwalk.Guestd.Daemon.Answers.{Answered, replies, at_start, serve_wrap_messages-Answered}
use sleepwalk.Guestd.Daemon.Supervise.{Processes, Visit, run_wrapped}
use sleepwalk.Guestd.Daemon.Supervise.Once.{
  recording, Started, expected, learn_all, run_wrapped-Started,
}

abbrev at : ℕ → Timestamp
at n = record { nanos = n }

abbrev version : GuestdVersion
version = record { version = 48 ∷ [] }

abbrev drawn : ℕ → VmId
drawn n = record { uuid = n }

abbrev with_inbox : List HostToGuest → PseudoChannel
with_inbox ms = record { inbox = ms; outbox = [] }

-- A turn is asked for before a drain and one behind it; then the next host connects.
abbrev accepts : List (Accept pseudo_channel)
accepts =
    connected (drawn 1) (at 1 ∷ at 2 ∷ at 3 ∷ at 4 ∷ [])
      (with_inbox (secrets [] ∷ run_turn first ∷ drain_request 500 ∷ run_turn first ∷ []))
    ∷ timed_out
    ∷ connected (drawn 2) (at 9 ∷ []) (with_inbox (secrets [] ∷ []))
    ∷ []

run_host_driven-AllAlone_example :
    AllAlone version accepts (run_host_driven pseudo_channel version accepts)
run_host_driven-AllAlone_example =
    run_host_driven-AllAlone version accepts (omega arith, (tt, (omega arith, tt)))

abbrev starts_turn : NextLine
starts_turn = line default_config.start_marker

abbrev ends_turn : NextLine
ends_turn = line default_config.end_marker

abbrev reads : List (List NextLine)
reads = (line (104 ∷ []) ∷ starts_turn ∷ []) ∷ (ends_turn ∷ []) ∷ [] ∷ (closed ∷ []) ∷ []

abbrev messages : List HostToGuest
messages = drain_request 500 ∷ HostToGuest.ping ∷ drain_request 500 ∷ []

serve_wrap_messages-Answered_example :
    Answered (replies default_config (starts_turn ∷ ends_turn ∷ []) reads messages) (
      serve_wrap_messages pseudo_channel default_config reads
        (read_lines default_config (starts_turn ∷ ends_turn ∷ []) at_start)
        (with_inbox messages))
serve_wrap_messages-Answered_example =
    serve_wrap_messages-Answered default_config (starts_turn ∷ ends_turn ∷ []) reads messages []
      (omega arith)

abbrev processes : Processes
processes = record { World = ℕ; Error = Unit {0}; exec = λ program args env w. (ok true, w + 1) }

abbrev key : Env
key = (75 ∷ [], 118 ∷ []) ∷ []

-- The first host sends no secrets, the second does, and the third follows a move.
abbrev visitors : List (Visit (recording processes) pseudo_channel)
visitors =
    record { id = drawn 1; now = at 1; reads = []; chan = with_inbox (HostToGuest.ping ∷ []) }
    ∷ record { id = drawn 2; now = at 2; reads = [] ∷ []; chan = with_inbox (secrets key ∷ []) }
    ∷ record {
      id = drawn 3;
      now = at 3;
      reads = (starts_turn ∷ []) ∷ [] ∷ [];
      chan = with_inbox (secrets [] ∷ drain_request 9 ∷ []);
    }
    ∷ []

run_wrapped-Started_example :
    Started processes pseudo_channel version
      (97 ∷ [])
      default_config
      (expected processes pseudo_channel version
        (97 ∷ [])
        default_config
        true
        (learn_all processes pseudo_channel version (97 ∷ []) default_config none visitors))
      (run_wrapped
        (recording processes)
        pseudo_channel
        version
        (97 ∷ [])
        default_config
        true
        (0, [])
        visitors)
run_wrapped-Started_example =
    run_wrapped-Started processes pseudo_channel version (97 ∷ []) default_config true 0 visitors
